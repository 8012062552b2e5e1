-- ===== src/Deadlines/Calendar.antt =====
-- `BusinessCalendar` of app/deadlines/business_days.py. A count of days is a number with a
-- direction; the loop of `add_business_days`, which has no bound of its own, takes fuel.
use astra_licensing_graph.Prelude.{
  ℕ, zero, suc, ◌+◌, ◌-◌, Bool, true, false, not, ◌&&◌, Option, none, some, List, [], ◌∷◌, String,
  if◌then◌else◌,
}
use astra_licensing_graph.Deadlines.Dates.{weekday, year_of}
use astra_licensing_graph.Deadlines.Holidays.{us_federal_holidays, member}

pub data AdjustmentPolicy : Type 0 where
  unadjusted previous_business_day_policy next_business_day_policy jurisdiction_specific
        manual_review :
      AdjustmentPolicy
  unknown_policy : String → AdjustmentPolicy

pub record BusinessCalendar : Type 0 where
  pub extra_holidays : List ℕ
  pub observe_federal : Bool
  pub weekend : List ℕ

unfoldable pub default_calendar : BusinessCalendar
default_calendar = record { extra_holidays = []; observe_federal = true; weekend = 5 ∷ 6 ∷ [] }

unfoldable pub is_holiday : BusinessCalendar → ℕ → Bool
is_holiday cal day =
    if member day cal.extra_holidays
    then true
    else cal.observe_federal && member day (us_federal_holidays (year_of day))

unfoldable pub is_business_day : BusinessCalendar → ℕ → Bool
is_business_day cal day = not (member (weekday day) cal.weekend) && not (is_holiday cal day)

-- The bounded search, `left` days more.
unfoldable pub search_forward : BusinessCalendar → ℕ → ℕ → ℕ
search_forward cal zero candidate = candidate
search_forward cal (suc left) candidate =
    let rest = search_forward cal left (candidate + 1) in
    if is_business_day cal candidate then candidate else rest

unfoldable pub search_backward : BusinessCalendar → ℕ → ℕ → ℕ
search_backward cal zero candidate = candidate
search_backward cal (suc left) candidate =
    let rest = search_backward cal left (candidate - 1) in
    if is_business_day cal candidate then candidate else rest

unfoldable pub next_business_day : BusinessCalendar → ℕ → Bool → ℕ
next_business_day cal day inclusive = search_forward cal 30 (if inclusive then day else day + 1)

unfoldable pub previous_business_day : BusinessCalendar → ℕ → Bool → ℕ
previous_business_day cal day inclusive =
    search_backward cal 30 (if inclusive then day else day - 1)

-- `timedelta(days=step)`
abbrev pub step_day : Bool → ℕ → ℕ
step_day forward day = if forward then day + 1 else day - 1

-- `while remaining:`
unfoldable pub walk : BusinessCalendar → Bool → ℕ → ℕ → ℕ → Option ℕ
walk cal forward fuel zero candidate = some candidate
walk cal forward zero (suc remaining) candidate = none
walk cal forward (suc fuel) (suc remaining) candidate =
    let next = step_day forward candidate in
    walk cal forward fuel (if is_business_day cal next then remaining else suc remaining) next

unfoldable pub add_business_days : BusinessCalendar → ℕ → ℕ → Bool → ℕ → Option ℕ
add_business_days cal fuel day forward zero = some (next_business_day cal day true)
add_business_days cal fuel day forward (suc count) = walk cal forward fuel (suc count) day

unfoldable pub apply_adjustment :
    BusinessCalendar → ℕ → AdjustmentPolicy → ℕ × Option AdjustmentPolicy
apply_adjustment cal day unadjusted = (day, none)
apply_adjustment cal day policy = if is_business_day cal day then (day, none) else elim policy [
  | next_business_day_policy ↦ (next_business_day cal day false, some next_business_day_policy)
  | previous_business_day_policy ↦
      (previous_business_day cal day false, some previous_business_day_policy)
  | jurisdiction_specific ↦ (day, some jurisdiction_specific)
  | manual_review ↦ (day, some manual_review)
  | _ ↦ (day, none)
]
