-- ===== src/Deadlines/Dates.antt =====
-- Python's `datetime.date` by its ordinal: day 1 is the first of January of year 1, in the Gregorian
-- calendar. A date past year 9999 is a date here and an error in Python.
use astra_licensing_graph.Prelude.{
  ℕ, ◌+◌, ◌-◌, ◌*◌, ◌/◌, ◌%◌, ◌≤◌, ◌<◌, ◌≡◌, Bool, not, ◌&&◌, ◌||◌, arith, ◌==◌, leb, if◌then◌else◌,
}

unfoldable pub is_leap : ℕ → Bool
is_leap y = y % 4 == 0 && (not (y % 100 == 0) || y % 400 == 0)

unfoldable pub days_before_year : ℕ → ℕ
days_before_year y = (y - 1) * 365 + (y - 1) / 4 - (y - 1) / 100 + (y - 1) / 400

unfoldable pub days_in_month : ℕ → ℕ → ℕ
days_in_month y m =
    if m == 2
    then if is_leap y then 29 else 28
    else if m == 4 || m == 6 || m == 9 || m == 11
    then 30
    else 31

abbrev leap_day : ℕ → ℕ
leap_day y = if is_leap y then 1 else 0

unfoldable pub days_before_month : ℕ → ℕ → ℕ
days_before_month y m =
    if leb m 1
    then 0
    else if m == 2
    then 31
    else if m == 3
    then 59 + leap_day y
    else if m == 4
    then 90 + leap_day y
    else if m == 5
    then 120 + leap_day y
    else if m == 6
    then 151 + leap_day y
    else if m == 7
    then 181 + leap_day y
    else if m == 8
    then 212 + leap_day y
    else if m == 9
    then 243 + leap_day y
    else if m == 10
    then 273 + leap_day y
    else if m == 11
    then 304 + leap_day y
    else 334 + leap_day y

-- `date(year, month, day)`
unfoldable pub date : ℕ → ℕ → ℕ → ℕ
date y m d = days_before_year y + days_before_month y m + d

-- `day.weekday()`: Monday is 0.
unfoldable pub weekday : ℕ → ℕ
weekday n = (n + 6) % 7

-- `day.year`
unfoldable pub year_of : ℕ → ℕ
year_of n =
    let r = (n - 1) % 146097 in
    let s = r % 36524 in
    let t = s % 1461 in
    let y = (n - 1) / 146097 * 400 + r / 36524 * 100 + s / 1461 * 4 + t / 365 in
    if t / 365 == 4 || r / 36524 == 4 then y else y + 1

-- The place of a day in its year, from 1.
unfoldable pub day_of_year : ℕ → ℕ
day_of_year n = n - days_before_year (year_of n)

month_at : ℕ → ℕ → ℕ
month_at y k =
    if leb k 31
    then 1
    else if leb k (59 + leap_day y)
    then 2
    else if leb k (90 + leap_day y)
    then 3
    else if leb k (120 + leap_day y)
    then 4
    else if leb k (151 + leap_day y)
    then 5
    else if leb k (181 + leap_day y)
    then 6
    else if leb k (212 + leap_day y)
    then 7
    else if leb k (243 + leap_day y)
    then 8
    else if leb k (273 + leap_day y)
    then 9
    else if leb k (304 + leap_day y)
    then 10
    else if leb k (334 + leap_day y)
    then 11
    else 12

-- `day.month` and `day.day`
unfoldable pub month_of : ℕ → ℕ
unfolding month_at
month_of n = month_at (year_of n) (day_of_year n)

unfoldable pub day_of : ℕ → ℕ
day_of n = day_of_year n - days_before_month (year_of n) (month_of n)

-- The length of a year.
pub days_before_year-suc :
    (y : ℕ) → 1 ≤ y → days_before_year (y + 1) ≡ days_before_year y + 365 + leap_day y
unfolding days_before_year is_leap
days_before_year-suc y h = ground arith

pub year_of_bounds :
    (n : ℕ)
    → 1 ≤ n
    → (1 ≤ year_of n) × (days_before_year (year_of n) < n) × (n ≤ days_before_year (year_of n + 1))
unfolding days_before_year year_of
year_of_bounds n h = ground arith

-- The arguments that `date` accepts.
pub record IsDate (y m d : ℕ) : Type 0 where
  pub year : 1 ≤ y
  pub month_low : 1 ≤ m
  pub month_high : m ≤ 12
  pub day_low : 1 ≤ d
  pub day_high : d ≤ days_in_month y m

pub days_before_year_mono : (a b : ℕ) → a ≤ b → days_before_year a ≤ days_before_year b
unfolding days_before_year
days_before_year_mono a b h = omega arith

pub day_in_year : (y m d : ℕ) → IsDate y m d → days_before_month y m + d ≤ 365 + leap_day y
unfolding days_before_month days_in_month
day_in_year y m d v = ground arith

pub date_bounds :
    (y m d : ℕ)
    → IsDate y m d
    → (days_before_year y < date y m d) × (date y m d ≤ days_before_year (y + 1))
unfolding date
date_bounds y m d v = omega (arith, day_in_year y m d v, days_before_year-suc y v.year)

pub year_of_unique :
    (n y : ℕ) → 1 ≤ y → days_before_year y < n → n ≤ days_before_year (y + 1) → year_of n ≡ y
year_of_unique n y h lo hi =
    let below : ¬ (year_of n < y) = λ p. omega (
      arith,
      year_of_bounds n (omega arith),
      days_before_year_mono (year_of n + 1) y (omega arith),
    ) in
    let above : ¬ (y < year_of n) = λ p. omega (
      arith,
      year_of_bounds n (omega arith),
      days_before_year_mono (y + 1) (year_of n) (omega arith),
    ) in
    omega arith

pub year_of-date : (y m d : ℕ) → IsDate y m d → year_of (date y m d) ≡ y
year_of-date y m d v =
    let (lo, hi) = date_bounds y m d v in year_of_unique (date y m d) y v.year lo hi

month_at_lem : (y m d : ℕ) → IsDate y m d → month_at y (days_before_month y m + d) ≡ m
unfolding month_at days_before_month days_in_month
month_at_lem y m d v = ground arith

date-offset : (y m d : ℕ) → date y m d - days_before_year y ≡ days_before_month y m + d
unfolding date
date-offset y m d = omega arith

-- A date gives back the year, the month and the day that it was made from.
pub date_parts :
    (y m d : ℕ)
    → IsDate y m d
    → (year_of (date y m d) ≡ y) × (month_of (date y m d) ≡ m) × (day_of (date y m d) ≡ d)
unfolding month_of day_of day_of_year
date_parts y m d v =
    let year = year_of-date y m d v in
    let month = month_at_lem y m d v in
    (year, rw (year, date-offset) month, rw (year, date-offset, month) (omega arith))

month_at_split :
    (y k : ℕ)
    → 1 ≤ k
    → k ≤ 365 + leap_day y
    → (1 ≤ month_at y k)
      × (month_at y k ≤ 12)
      × (days_before_month y (month_at y k) < k)
      × (k ≤ days_before_month y (month_at y k) + days_in_month y (month_at y k))
unfolding month_at days_before_month days_in_month
month_at_split y k lo hi = ground arith

-- Every day from day 1 on is the date of its year, its month and its day, and these are valid.
pub date_of_parts :
    (n : ℕ)
    → 1 ≤ n
    → IsDate (year_of n) (month_of n) (day_of n) × (date (year_of n) (month_of n) (day_of n) ≡ n)
unfolding month_of day_of day_of_year date
date_of_parts n h =
    let (low, lo, hi) = year_of_bounds n h in
    let length = days_before_year-suc (year_of n) low in
    let (m_lo, m_hi, d_lo, d_hi) =
      month_at_split (year_of n) (n - days_before_year (year_of n)) (omega arith)
        (omega (arith, length)) in
    (
      record {
        year = low;
        month_low = m_lo;
        month_high = m_hi;
        day_low = omega (arith, d_lo);
        day_high = omega (arith, d_hi);
      },
      omega (arith, d_lo, lo),
    )
