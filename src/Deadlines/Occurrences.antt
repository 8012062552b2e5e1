-- ===== src/Deadlines/Occurrences.antt =====
-- `_next_annual` of app/deadlines/recurrence.py against the first date of its month and day.
use mathlib.Core.Path.{subst}
use Prim.Native.Nat.{min}
use native.Mathlib.Decide.{dec_lt}
use astra_licensing_graph.Prelude.{
  ℕ, ◌+◌, ◌≤◌, ◌<◌, ◌≡◌, refl, ◌≢◌, inl, inr, Bool, true, false, arith, Bool-cases,
}
use astra_licensing_graph.Deadlines.Dates.{
  year_of, days_before_year, days_in_month, IsDate, date_bounds, year_of_bounds,
  days_before_year_mono,
}
use astra_licensing_graph.Deadlines.Recurrence.{
  ok, clamp_date, safe_date, is_past, is_future, next_yearly, next_annual,
}

clamp-IsDate : (y m d : ℕ) → 1 ≤ y → 1 ≤ m → m ≤ 12 → 1 ≤ d → IsDate y m (min d (days_in_month y m))
unfolding days_in_month
clamp-IsDate y m d hy hm hm' hd = record {
  year = hy;
  month_low = hm;
  month_high = hm';
  day_low = ground arith;
  day_high = omega arith;
}

module _ (m d : ℕ) (hm : 1 ≤ m) (hm' : m ≤ 12) (hd : 1 ≤ d) where
  pub clamp_bounds :
      (y : ℕ)
      → 1 ≤ y
      → (days_before_year y < clamp_date y m d) × (clamp_date y m d ≤ days_before_year (y + 1))
  unfolding clamp_date
  clamp_bounds y h = date_bounds y m (min d (days_in_month y m)) (clamp-IsDate y m d h hm hm' hd)

  pub clamp_mono : (a b : ℕ) → 1 ≤ a → a < b → clamp_date a m d < clamp_date b m d
  clamp_mono a b h lt = omega (
    arith,
    clamp_bounds a h,
    clamp_bounds b (omega arith),
    days_before_year_mono (a + 1) b (omega arith),
  )

  pub safe-clamp : (y : ℕ) → safe_date y m d ≡ ok (clamp_date y m d)
  unfolding safe_date
  safe-clamp y = ground arith

  -- A year's anniversary against a day of another year.
  clamp-before : (y after : ℕ) → 1 ≤ y → 1 ≤ after → y < year_of after → clamp_date y m d < after
  clamp-before y after h k lt = omega (
    arith,
    clamp_bounds y h,
    year_of_bounds after k,
    days_before_year_mono (y + 1) (year_of after) (omega arith),
  )

  pub clamp-after : (y after : ℕ) → 1 ≤ after → year_of after < y → after < clamp_date y m d
  clamp-after y after k lt = omega (
    arith,
    clamp_bounds y (omega arith),
    year_of_bounds after k,
    days_before_year_mono (year_of after + 1) y (omega arith),
  )

  -- The first date of the month and day, clamped to the month, after a day, or on it if inclusive.
  pub record IsFirstAnnual (after : ℕ) (inclusive : Bool) (r : ℕ) : Type 0 where
    pub future : is_future r after inclusive ≡ true
    pub year : ℕ
    pub year_pos : 1 ≤ year
    pub annual : r ≡ clamp_date year m d
    pub first :
        (y : ℕ) → 1 ≤ y → is_future (clamp_date y m d) after inclusive ≡ true → r ≤ clamp_date y m d

  -- A future anniversary is of the year of the day or of a later one.
  future-year :
      (y after : ℕ) (inclusive : Bool)
      → 1 ≤ y
      → 1 ≤ after
      → is_future (clamp_date y m d) after inclusive ≡ true
      → year_of after ≤ y
  future-year y after inclusive hy h f = elim (dec_lt y (year_of after)) [
    | yes lt ↦ let before = clamp-before y after hy h lt in absurd (ground (arith, before))
    | no ge ↦ omega arith
  ]

  clamp_mono_le : (a b : ℕ) → 1 ≤ a → a ≤ b → clamp_date a m d ≤ clamp_date b m d
  clamp_mono_le a b h le = elim (dec_lt a b) [
    | yes lt ↦ omega (arith, clamp_mono a b h lt)
    | no ge ↦ let same : a ≡ b = omega arith in rw same (omega arith)
  ]

  this_past :
      (after : ℕ) (inclusive : Bool)
      → is_past (clamp_date (year_of after) m d) after inclusive ≡ true
      → (y : ℕ) → y ≡ year_of after
      → is_future (clamp_date y m d) after inclusive ≡ true
      → ⊥
  this_past after inclusive past y e f =
      let f' : is_future (clamp_date (year_of after) m d) after inclusive ≡ true =
        subst (λ x. is_future (clamp_date x m d) after inclusive ≡ true) e f in
      ground arith

  annual-this :
      (after : ℕ) (inclusive : Bool)
      → 1 ≤ after
      → is_past (clamp_date (year_of after) m d) after inclusive ≡ false
      → IsFirstAnnual after inclusive (clamp_date (year_of after) m d)
  annual-this after inclusive h now = record {
    future = ground arith;
    year = year_of after;
    year_pos = (year_of_bounds after h).0;
    annual = refl;
    first = λ y hy f.
        clamp_mono_le (year_of after) y (year_of_bounds after h).0
          (future-year y after inclusive hy h f);
  }

  annual-next :
      (after : ℕ) (inclusive : Bool)
      → 1 ≤ after
      → is_past (clamp_date (year_of after) m d) after inclusive ≡ true
      → IsFirstAnnual after inclusive (clamp_date (year_of after + 1) m d)
  annual-next after inclusive h past = record {
    future =
        let later = clamp-after (year_of after + 1) after h (omega arith) in ground (arith, later);
    year = year_of after + 1;
    year_pos = omega arith;
    annual = refl;
    first = λ y hy f.
        let other : y ≢ year_of after = λ e. this_past after inclusive past y e f in
        clamp_mono_le (year_of after + 1) y (omega arith)
          (omega (arith, future-year y after inclusive hy h f, other));
  }

  -- For a month from 1 to 12 and a day from 1 on, `_next_annual` always finds the first date of the month and day after the given day.
  pub next_annual-first :
      (after : ℕ) (inclusive : Bool)
      → 1 ≤ after
      → (r : ℕ) × (next_annual m d after inclusive ≡ ok r) × IsFirstAnnual after inclusive r
  unfolding next_annual next_yearly
  next_annual-first after inclusive h =
      elim (Bool-cases (is_past (clamp_date (year_of after) m d) after inclusive)) [
        | inl past ↦ (
          clamp_date (year_of after + 1) m d,
          rw (safe-clamp (year_of after), past) (safe-clamp (year_of after + 1)),
          annual-next after inclusive h past,
        )
        | inr now ↦ (
          clamp_date (year_of after) m d,
          rw (safe-clamp (year_of after), now) refl,
          annual-this after inclusive h now,
        )
      ]
