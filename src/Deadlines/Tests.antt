-- ===== src/Deadlines/Tests.antt =====
-- The deadline arithmetic at concrete dates.
use astra_licensing_graph.Prelude.{ℕ, ◌+◌, ◌≡◌, refl, true, false, none, some, [], ◌∷◌, arith}
use native.Mathlib.Decide.{ℕ_discrete}
use astra_licensing_graph.Deadlines.Dates.{
  day_of_year, date, weekday, year_of, month_of, day_of, days_before_year, days_before_month,
  is_leap, days_in_month,
}
use astra_licensing_graph.Deadlines.Holidays.{
  nth_weekday, last_weekday, next_month, us_federal_holidays, member, fixed_holidays,
  floating_holidays, observed,
}
use astra_licensing_graph.Deadlines.Calendar.{
  BusinessCalendar, default_calendar, is_business_day, is_holiday, next_business_day,
  add_business_days, next_business_day_policy, apply_adjustment, search_forward,
}
use astra_licensing_graph.Deadlines.Search.{IsOpen, Arrived, add_business_days-Arrived}
use astra_licensing_graph.Deadlines.Adjust.{Adjusted, apply_adjustment-Adjusted, new_year-missed}
use astra_licensing_graph.Deadlines.Recurrence.{
  next_annual, ok, RecurrenceContext, Config, next_occurrence, is_future, fixed_annual_date,
  fixed_annual, next_yearly, safe_date, clamp_date,
}
use astra_licensing_graph.Deadlines.Expansion.{next_occurrence-future}
use astra_licensing_graph.Deadlines.Expanded.{Listed, expand-Listed}
use astra_licensing_graph.Deadlines.Recurrence.{expand, expand_from, single_shot}

-- A calendar that is closed on Mondays only.
abbrev closed_monday : BusinessCalendar
closed_monday = record { extra_holidays = []; observe_federal = false; weekend = 0 ∷ [] }

closed_monday-day : (day : ℕ) → (weekday day ≡ 0 → ⊥) → is_business_day closed_monday day ≡ true
unfolding is_business_day is_holiday member
closed_monday-day day h = ground (arith, h)

tuesday : (day : ℕ) → weekday (day + 1 + 0) ≡ 0 → weekday (day + 1 + 1) ≡ 0 → ⊥
unfolding weekday
tuesday day a b = omega arith

closed_monday-open : IsOpen closed_monday
closed_monday-open day = elim (ℕ_discrete (weekday (day + 1 + 0)) 0) [
  | yes monday ↦ (1, omega arith, closed_monday-day (day + 1 + 1) (tuesday day monday))
  | no other ↦ (0, omega arith, closed_monday-day (day + 1 + 0) other)
]

calendar : Unit {0}
unfolding date days_before_year days_before_month is_leap days_in_month weekday year_of month_of
    day_of us_federal_holidays fixed_holidays floating_holidays observed member is_holiday
    is_business_day default_calendar next_business_day search_forward nth_weekday last_weekday
    next_month
calendar = tt

-- 4 July 2026 is a Saturday, and the day before it the observed holiday.
july_2026 : next_business_day default_calendar (date 2026 7 3) true ≡ date 2026 7 6
unfolding calendar
july_2026 = refl

july_2026-open : is_business_day default_calendar (date 2026 7 3 + 3) ≡ true
unfolding calendar
july_2026-open = refl

new_year_2022 : weekday (date (2021 + 1) 1 1) ≡ 5
unfolding calendar
new_year_2022 = refl

add_business_days-Arrived_example :
    Arrived closed_monday 739000 9 (add_business_days closed_monday 270 739000 true 9)
add_business_days-Arrived_example =
    add_business_days-Arrived closed_monday closed_monday-open 739000 9 270 (omega arith)
      (omega arith)

apply_adjustment-Adjusted_example :
    Adjusted closed_monday 739001 next_business_day_policy
      (apply_adjustment closed_monday 739001 next_business_day_policy).0
      (apply_adjustment closed_monday 739001 next_business_day_policy).1
apply_adjustment-Adjusted_example =
    apply_adjustment-Adjusted closed_monday closed_monday-open 739001 next_business_day_policy

new_year-missed_example :
    (member (date 2021 12 31) (us_federal_holidays (2021 + 1)) ≡ true)
    × (is_business_day default_calendar (date 2021 12 31) ≡ true)
new_year-missed_example = new_year-missed 2021 (omega arith) new_year_2022

abbrev no_dates : RecurrenceContext
no_dates = record {
  issue_date = none;
  effective_date = none;
  expiration_date = none;
  regulator_supplied_due_date = none;
  bond_expiration_date = none;
  annual_report_date = none;
  last_completed_date = none;
  case_event_date = none;
  manual_date = none;
}

abbrev leap_filing : Config
leap_filing = record {
  month = some 2;
  day = some 29;
  interval_years = none;
  window_end_month = none;
  window_end_day = none;
  offset_days = none;
  interval_months = none;
  interval_days = none;
  manual_text = none;
}

-- A filing due on 29 February is due on the 28th in 2027.
february_2027 :
    next_occurrence fixed_annual_date leap_filing no_dates (date 2026 7 3) false
    ≡ ok (some (date 2027 2 28))
unfolding calendar next_occurrence fixed_annual next_annual next_yearly safe_date clamp_date
february_2027 = refl

next_occurrence-future_example : is_future (date 2027 2 28) (date 2026 7 3) false ≡ true
unfolding date
next_occurrence-future_example =
    next_occurrence-future (date 2026 7 3) false (omega arith) fixed_annual_date leap_filing
      no_dates (date 2027 2 28) (λ e. cc) (λ e. cc) (omega arith) february_2027

-- Three filings due on the last day of February.
filings :
    expand fixed_annual_date leap_filing no_dates (date 2029 1 1) (date 2026 7 3) 3
    ≡ ok (date 2027 2 28 ∷ date 2028 2 29 ∷ [])
unfolding calendar next_occurrence fixed_annual next_annual next_yearly safe_date clamp_date expand
    expand_from single_shot
filings = refl

expand-Listed_example :
    Listed (date 2026 7 3) true (date 2029 1 1) 3 (date 2027 2 28 ∷ date 2028 2 29 ∷ [])
unfolding date
expand-Listed_example =
    expand-Listed fixed_annual_date leap_filing no_dates (date 2029 1 1) (date 2026 7 3) 3
      (date 2027 2 28 ∷ date 2028 2 29 ∷ []) (λ e. cc) (λ e. cc) (omega arith) (omega arith) filings

abbrev expiring : RecurrenceContext
expiring = record no_dates { expiration_date = some (date 2026 9 30) }

anniversary_2027 :
    safe_date (year_of (date 2026 9 30) + 1) (month_of (date 2026 9 30)) (day_of (date 2026 9 30))
    ≡ ok (date 2027 9 30)
unfolding calendar safe_date clamp_date day_of_year
anniversary_2027 = refl
