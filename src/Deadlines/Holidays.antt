-- ===== src/Deadlines/Holidays.antt =====
-- The federal holidays of app/deadlines/business_days.py. Days are ordinals.
use astra_licensing_graph.Prelude.{
  ℕ, ◌+◌, ◌-◌, ◌*◌, ◌%◌, ◌≤◌, ◌<◌, ◌≡◌, Bool, List, [], ◌∷◌, ◌++◌, map, arith, All, any, ◌==◌,
  if◌then◌else◌,
}
use astra_licensing_graph.Deadlines.Dates.{date, weekday, days_before_month}

-- Python's `(a - b) % 7` for weekdays.
abbrev minus_mod_7 : ℕ → ℕ → ℕ
minus_mod_7 a b = (a + 7 - b) % 7

unfoldable pub nth_weekday : ℕ → ℕ → ℕ → ℕ → ℕ
nth_weekday year month w n =
    let first = date year month 1 in first + (minus_mod_7 w (weekday first) + 7 * (n - 1))

unfoldable pub next_month : ℕ → ℕ → ℕ
next_month year month = date (if month == 12 then year + 1 else year) (month % 12 + 1) 1

unfoldable pub last_weekday : ℕ → ℕ → ℕ → ℕ
last_weekday year month w =
    let last = next_month year month - 1 in last - minus_mod_7 (weekday last) w

unfoldable pub observed : ℕ → ℕ
observed day = if weekday day == 5 then day - 1 else if weekday day == 6 then day + 1 else day

unfoldable pub fixed_holidays : ℕ → List ℕ
fixed_holidays year =
    date year 1 1 ∷ date year 6 19 ∷ date year 7 4 ∷ date year 11 11 ∷ date year 12 25 ∷ []

unfoldable pub floating_holidays : ℕ → List ℕ
floating_holidays year =
    nth_weekday year 1 0 3
    ∷ nth_weekday year 2 0 3
    ∷ last_weekday year 5 0
    ∷ nth_weekday year 9 0 1
    ∷ nth_weekday year 10 0 2
    ∷ nth_weekday year 11 3 4
    ∷ []

unfoldable pub us_federal_holidays : ℕ → List ℕ
us_federal_holidays year = map observed (fixed_holidays year) ++ floating_holidays year

-- `day in days`
unfoldable pub member : ℕ → List ℕ → Bool
member day = any (λ d. d == day)

-- The `n`-th of a weekday in a month falls on that weekday, in the `n`-th week of the month.
pub nth_weekday_lem :
    (year month w n : ℕ)
    → w < 7
    → 1 ≤ n
    → (weekday (nth_weekday year month w n) ≡ w)
      × (date year month 1 + 7 * (n - 1) ≤ nth_weekday year month w n)
      × (nth_weekday year month w n < date year month 1 + 7 * n)
unfolding nth_weekday weekday
nth_weekday_lem year month w n h k = omega arith

-- The last of a weekday in a month falls on that weekday, in the seven days before the next month.
pub last_weekday_lem :
    (year month w : ℕ)
    → w < 7
    → 8 ≤ next_month year month
    → (weekday (last_weekday year month w) ≡ w)
      × (last_weekday year month w < next_month year month)
      × (next_month year month ≤ last_weekday year month w + 7)
unfolding last_weekday weekday
last_weekday_lem year month w h k = omega arith

-- An observed day is at most one day off, and never on a weekend.
pub observed-weekday :
    (day : ℕ)
    → 1 ≤ day
    → (weekday (observed day) < 5) × (observed day ≤ day + 1) × (day ≤ observed day + 1)
unfolding observed weekday
observed-weekday day h = ground arith

date_pos : (y m d : ℕ) → 1 ≤ d → 1 ≤ date y m d
unfolding date
date_pos y m d h = omega arith

next_month_may : (y : ℕ) → 8 ≤ next_month y 5
unfolding next_month date days_before_month
next_month_may y = ground arith

-- Every federal holiday of a year, observed shifts included, falls on a day from Monday to Friday.
us_federal_holidays-weekday : (year : ℕ) → All (λ d. weekday d < 5) (us_federal_holidays year)
unfolding us_federal_holidays fixed_holidays floating_holidays
us_federal_holidays-weekday year = (
  (observed-weekday (date year 1 1) (date_pos year 1 1 (omega arith))).0,
  (
    (observed-weekday (date year 6 19) (date_pos year 6 19 (omega arith))).0,
    (
      (observed-weekday (date year 7 4) (date_pos year 7 4 (omega arith))).0,
      (
        (observed-weekday (date year 11 11) (date_pos year 11 11 (omega arith))).0,
        (
          (observed-weekday (date year 12 25) (date_pos year 12 25 (omega arith))).0,
          (
            (omega (arith, nth_weekday_lem year 1 0 3 (omega arith) (omega arith))),
            (
              (omega (arith, nth_weekday_lem year 2 0 3 (omega arith) (omega arith))),
              (
                (omega (arith, last_weekday_lem year 5 0 (omega arith) (next_month_may year))),
                (
                  (omega (arith, nth_weekday_lem year 9 0 1 (omega arith) (omega arith))),
                  (
                    (omega (arith, nth_weekday_lem year 10 0 2 (omega arith) (omega arith))),
                    ((omega (arith, nth_weekday_lem year 11 3 4 (omega arith) (omega arith))), tt),
                  ),
                ),
              ),
            ),
          ),
        ),
      ),
    ),
  ),
)

-- Days well before the end of their year.
abbrev Early : ℕ → ℕ → ℕ → Type 0
Early year m d = days_before_month year m + d + 3 ≤ days_before_month year 12 + 31

Early-fixed : (year m d : ℕ) → Early year m d → observed (date year m d) < date year 12 31
unfolding date observed
Early-fixed year m d h = ground arith

Early-nth :
    (year m w n : ℕ)
    → w < 7
    → 1 ≤ n
    → Early year m (7 * n)
    → nth_weekday year m w n < date year 12 31
unfolding date nth_weekday
Early-nth year m w n h k e = omega arith

early_last : (year : ℕ) → last_weekday year 5 0 < date year 12 31
unfolding date last_weekday next_month days_before_month
early_last year = ground arith

-- No holiday in a year's own list falls on its last day.
pub own_holidays-early : (year : ℕ) → All (λ d. d < date year 12 31) (us_federal_holidays year)
unfolding us_federal_holidays fixed_holidays floating_holidays days_before_month
own_holidays-early year = (
  Early-fixed year 1 1 (ground arith),
  (
    Early-fixed year 6 19 (ground arith),
    (
      Early-fixed year 7 4 (ground arith),
      (
        Early-fixed year 11 11 (ground arith),
        (
          Early-fixed year 12 25 (ground arith),
          (
            Early-nth year 1 0 3 (omega arith) (omega arith) (ground arith),
            (
              Early-nth year 2 0 3 (omega arith) (omega arith) (ground arith),
              (
                early_last year,
                (
                  Early-nth year 9 0 1 (omega arith) (omega arith) (ground arith),
                  (
                    Early-nth year 10 0 2 (omega arith) (omega arith) (ground arith),
                    (Early-nth year 11 3 4 (omega arith) (omega arith) (ground arith), tt),
                  ),
                ),
              ),
            ),
          ),
        ),
      ),
    ),
  ),
)
