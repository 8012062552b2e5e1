-- ===== src/Deadlines/Adjust.antt =====
-- The adjustment policies and the year's end in the calendar of app/deadlines/business_days.py.
use mathlib.Core.Path.{subst}
use astra_licensing_graph.Prelude.{
  ℕ, ◌+◌, ◌-◌, ◌≤◌, ◌<◌, ◌≡◌, refl, ◌⊎◌, inl, inr, true, false, Option, none, some, String, List,
  [], ◌∷◌, arith, All, Bool-cases,
}
use astra_licensing_graph.Deadlines.Dates.{
  date, weekday, IsDate, year_of-date, days_before_year-suc, days_before_month, days_in_month,
}
use astra_licensing_graph.Deadlines.Holidays.{
  us_federal_holidays, fixed_holidays, observed, member, own_holidays-early,
}
use astra_licensing_graph.Deadlines.Calendar.{
  AdjustmentPolicy, unadjusted, next_business_day_policy, previous_business_day_policy,
  jurisdiction_specific, manual_review, unknown_policy, BusinessCalendar, default_calendar,
  is_holiday, is_business_day, next_business_day, previous_business_day, apply_adjustment,
}
use astra_licensing_graph.Deadlines.Search.{IsOpen, IsNext, next_business_day-IsNext}

-- The outcome of `apply_adjustment` on a policy.
pub data Adjusted (cal : BusinessCalendar) (day : ℕ)
    : AdjustmentPolicy → ℕ → Option AdjustmentPolicy → Type 0 where
  kept :
      (p : AdjustmentPolicy)
      → (p ≡ unadjusted) ⊎ (is_business_day cal day ≡ true)
      → Adjusted cal day p day none
  reported :
      (p : AdjustmentPolicy)
      → is_business_day cal day ≡ false
      → (p ≡ jurisdiction_specific) ⊎ (p ≡ manual_review)
      → Adjusted cal day p day (some p)
  ignored :
      (p : AdjustmentPolicy) (s : String)
      → is_business_day cal day ≡ false
      → p ≡ unknown_policy s
      → Adjusted cal day p day none
  moved_on :
      (p : AdjustmentPolicy) (r : ℕ)
      → is_business_day cal day ≡ false
      → p ≡ next_business_day_policy
      → IsNext cal (day + 1) r
      → Adjusted cal day p r (some p)
  moved_back :
      (p : AdjustmentPolicy)
      → is_business_day cal day ≡ false
      → p ≡ previous_business_day_policy
      → Adjusted cal day p (previous_business_day cal day false) (some p)

module _ (cal : BusinessCalendar) (open_cal : IsOpen cal) (day : ℕ) where
  IsNext-found : IsNext cal (day + 1) (next_business_day cal day false)
  IsNext-found = let (k, lt, b) = open_cal day in next_business_day-IsNext cal day false k lt b

  -- On a calendar with a business day in every 30 days: a date is left alone under NONE and on a business day; on another day only the two business-day
  -- policies move it, the next-day policy to the first business day after it; the two policies that
  -- want a human are reported with the date unmoved, and an unknown policy does nothing.
  pub apply_adjustment-Adjusted :
      (p : AdjustmentPolicy)
      → Adjusted cal day p (apply_adjustment cal day p).0 (apply_adjustment cal day p).1
  unfolding apply_adjustment
  apply_adjustment-Adjusted unadjusted = kept unadjusted (inl refl)
  apply_adjustment-Adjusted next_business_day_policy = elim (Bool-cases (is_business_day cal day)) [
    | inl now ↦ rw now (kept next_business_day_policy (inr now))
    | inr later ↦ rw later (moved_on next_business_day_policy _ later refl IsNext-found)
  ]
  apply_adjustment-Adjusted previous_business_day_policy =
      elim (Bool-cases (is_business_day cal day)) [
        | inl now ↦ rw now (kept previous_business_day_policy (inr now))
        | inr later ↦ rw later (moved_back previous_business_day_policy later refl)
      ]
  apply_adjustment-Adjusted jurisdiction_specific = elim (Bool-cases (is_business_day cal day)) [
    | inl now ↦ rw now (kept jurisdiction_specific (inr now))
    | inr later ↦ rw later (reported jurisdiction_specific later (inl refl))
  ]
  apply_adjustment-Adjusted manual_review = elim (Bool-cases (is_business_day cal day)) [
    | inl now ↦ rw now (kept manual_review (inr now))
    | inr later ↦ rw later (reported manual_review later (inr refl))
  ]
  apply_adjustment-Adjusted (unknown_policy s) = elim (Bool-cases (is_business_day cal day)) [
    | inl now ↦ rw now (kept (unknown_policy s) (inr now))
    | inr later ↦ rw later (ignored (unknown_policy s) s later refl)
  ]

not_member : (d : ℕ) (ds : List ℕ) → All (λ x. x < d) ds → member d ds ≡ false
unfolding member
not_member d [] h = refl
not_member d (x ∷ ds) h = ground (arith, not_member d ds)

year_end-IsDate : (y : ℕ) → 1 ≤ y → IsDate y 12 31
unfolding days_in_month
year_end-IsDate y h = record {
  year = h;
  month_low = omega arith;
  month_high = omega arith;
  day_low = omega arith;
  day_high = ground arith;
}

-- The last day of a year is never a holiday of the default calendar.
year_end-not_holiday : (y : ℕ) → 1 ≤ y → is_holiday default_calendar (date y 12 31) ≡ false
unfolding is_holiday default_calendar member
year_end-not_holiday y h =
    let year = year_of-date y 12 31 (year_end-IsDate y h) in
    rw year (not_member (date y 12 31) (us_federal_holidays y) (own_holidays-early y))

year_end-before : (y : ℕ) → 1 ≤ y → date (y + 1) 1 1 - 1 ≡ date y 12 31
unfolding date days_before_month
year_end-before y h = ground (arith, days_before_year-suc y h)

first_observed :
    (y : ℕ) → weekday (date y 1 1) ≡ 5 → member (date y 1 1 - 1) (us_federal_holidays y) ≡ true
unfolding us_federal_holidays fixed_holidays observed member
first_observed y h = rw h (ground arith)

day_before_saturday : (n : ℕ) → weekday n ≡ 5 → weekday (n - 1) ≡ 4
unfolding weekday
day_before_saturday n h = omega arith

friday-business :
    (d : ℕ)
    → weekday d ≡ 4
    → is_holiday default_calendar d ≡ false
    → is_business_day default_calendar d ≡ true
unfolding is_business_day default_calendar member
friday-business d f h = ground (arith, f, h)

-- In every year whose 31 December is the observed New Year holiday, because 1 January falls on a
-- Saturday, the day is in the next year's list of holidays and yet is a business day of the default
-- calendar: only the list of the day's own year is asked.
pub new_year-missed :
    (y : ℕ)
    → 1 ≤ y
    → weekday (date (y + 1) 1 1) ≡ 5
    → (member (date y 12 31) (us_federal_holidays (y + 1)) ≡ true)
      × (is_business_day default_calendar (date y 12 31) ≡ true)
new_year-missed y h w =
    let before = year_end-before y h in
    let friday : weekday (date y 12 31) ≡ 4 =
      subst (λ x. weekday x ≡ 4) before (day_before_saturday (date (y + 1) 1 1) w) in
    (
      subst (λ x. member x (us_federal_holidays (y + 1)) ≡ true) before (first_observed (y + 1) w),
      friday-business (date y 12 31) friday (year_end-not_holiday y h),
    )
