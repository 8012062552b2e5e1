-- ===== src/Deadlines/Recurrence.antt =====
-- app/deadlines/recurrence.py. Days are ordinals. A configuration is read through its entries: a
-- number that is present as an `int`, which the model takes as not negative but for an offset, and
-- the text of a manual date with what `date.fromisoformat` makes of it.
use astra_licensing_graph.Prelude.{
  ℕ, zero, suc, ◌+◌, ◌-◌, ◌/◌, ◌%◌, Bool, true, false, not, ◌&&◌, ◌||◌, Option, none, some, List,
  [], ◌∷◌, String, ℤ, pos, negsuc, ◌==◌, ltb, leb, if◌then◌else◌, or_else,
}
use Prim.Native.Nat.{min}
use astra_licensing_graph.Deadlines.Dates.{date, year_of, month_of, day_of, days_in_month}

pub data RecurrenceType : Type 0 where
  fixed_annual_date issue_anniversary expiration_anniversary regulator_supplied
        nmls_annual_renewal_window bond_expiration annual_report_date relative_to_case_event
        custom_interval manual_date :
      RecurrenceType
  unsupported : String → RecurrenceType

pub record RecurrenceContext : Type 0 where
  pub issue_date : Option ℕ
  pub effective_date : Option ℕ
  pub expiration_date : Option ℕ
  pub regulator_supplied_due_date : Option ℕ
  pub bond_expiration_date : Option ℕ
  pub annual_report_date : Option ℕ
  pub last_completed_date : Option ℕ
  pub case_event_date : Option ℕ
  pub manual_date : Option ℕ

pub data ManualText : Type 0 where
  iso : ℕ → ManualText
  not_iso : String → ManualText

pub record Config : Type 0 where
  pub month : Option ℕ
  pub day : Option ℕ
  pub interval_years : Option ℕ
  pub window_end_month : Option ℕ
  pub window_end_day : Option ℕ
  pub offset_days : Option ℤ
  pub interval_months : Option ℕ
  pub interval_days : Option ℕ
  pub manual_text : Option ManualText

-- RecurrenceError, and the ValueError of an impossible date.
pub data Error : Type 0 where
  recurrence_error value_error : Error

pub data Result (A : Type 0) : Type 0 where
  ok : A → Result A
  err : Error → Result A

infixl 5 ◌>>=◌
abbrev pub ◌>>=◌ : {A B : Type 0} → Result A → (A → Result B) → Result B
ok a >>= f = f a
err e >>= f = err e

-- `date(year, month, min(day, last))`
unfoldable pub clamp_date : ℕ → ℕ → ℕ → ℕ
clamp_date year month day = date year month (min day (days_in_month year month))

-- `monthrange` refuses a month outside 1 to 12, and `date` the day 0.
unfoldable pub safe_date : ℕ → ℕ → ℕ → Result ℕ
safe_date year month day =
    if leb 1 month && leb month 12 && leb 1 day
    then ok (clamp_date year month day)
    else err value_error

-- `candidate < after or (candidate == after and not inclusive)`
abbrev pub is_past : ℕ → ℕ → Bool → Bool
is_past candidate after inclusive = ltb candidate after || candidate == after && not inclusive

-- `anchor > after or (anchor == after and inclusive)`
abbrev pub is_future : ℕ → ℕ → Bool → Bool
is_future anchor after inclusive = ltb after anchor || anchor == after && inclusive

-- The anniversary in the year of `after`, or `interval` years on.
unfoldable pub next_yearly : ℕ → ℕ → ℕ → ℕ → Bool → Result ℕ
next_yearly interval month day after inclusive =
    safe_date (year_of after) month day >>= λ candidate.
    if is_past candidate after inclusive
    then safe_date (year_of after + interval) month day
    else ok candidate

unfoldable pub next_annual : ℕ → ℕ → ℕ → Bool → Result ℕ
next_annual month day after inclusive = next_yearly 1 month day after inclusive

abbrev pub found : Result ℕ → Result (Option ℕ)
found r = r >>= λ d. ok (some d)

abbrev pub get_or {ℓ} : {A : Type ℓ} → Option A → A → A
get_or none d = d
get_or (some a) d = a

-- `anchor if anchor > after or ... else None`
unfoldable pub once : Option ℕ → ℕ → Bool → Result (Option ℕ)
once none after inclusive = ok none
once (some a) after inclusive = if is_future a after inclusive then ok (some a) else ok none

unfoldable pub fixed_annual : Option ℕ → Option ℕ → ℕ → Bool → Result (Option ℕ)
fixed_annual (some month) (some day) after inclusive = found (next_annual month day after inclusive)
fixed_annual _ _ after inclusive = err recurrence_error

unfoldable pub issue_anniversary_after : Option ℕ → Config → ℕ → Bool → Result (Option ℕ)
issue_anniversary_after none config after inclusive = ok none
issue_anniversary_after (some anchor) config after inclusive =
    found (
      next_yearly (get_or config.interval_years 1) (month_of anchor) (day_of anchor) after
        inclusive)

unfoldable pub expiration_anniversary_after : Option ℕ → Config → ℕ → Bool → Result (Option ℕ)
expiration_anniversary_after none config after inclusive = ok none
expiration_anniversary_after (some anchor) config after inclusive =
    if is_future anchor after inclusive
    then ok (some anchor)
    else found (
        safe_date (year_of anchor + get_or config.interval_years 1) (month_of anchor)
          (day_of anchor))

-- What ANNUAL_REPORT_DATE does without a usable anchor.
unfoldable pub report_fallback : Option ℕ → Option ℕ → Option ℕ → ℕ → Bool → Result (Option ℕ)
report_fallback anchor (some month) (some day) after inclusive =
    found (next_annual month day after inclusive)
report_fallback none _ _ after inclusive = ok none
report_fallback (some anchor) _ _ after inclusive =
    found (safe_date (year_of after + 1) (month_of anchor) (day_of anchor))

unfoldable pub annual_report_after : Option ℕ → Config → ℕ → Bool → Result (Option ℕ)
annual_report_after none config after inclusive =
    report_fallback none config.month config.day after inclusive
annual_report_after (some anchor) config after inclusive =
    if is_future anchor after inclusive
    then ok (some anchor)
    else report_fallback (some anchor) config.month config.day after inclusive

abbrev shift_days : ℕ → ℤ → ℕ
shift_days d (pos n) = d + n
shift_days d (negsuc n) = d - (n + 1)

unfoldable pub case_event_offset : Option ℕ → Config → Result (Option ℕ)
case_event_offset none config = ok none
case_event_offset (some anchor) config =
    ok (some (shift_days anchor (get_or config.offset_days (pos 0))))

-- One round of the CUSTOM_INTERVAL loop.
unfoldable pub advance : ℕ → ℕ → ℕ → Result ℕ
advance months days candidate =
    let total = month_of candidate - 1 + months in
    (if months == 0
      then ok candidate
      else safe_date (year_of candidate + total / 12) (total % 12 + 1) (day_of candidate))
    >>= λ moved. ok (moved + days)

-- `for _ in range(left)`
unfoldable pub interval_loop : ℕ → ℕ → ℕ → ℕ → ℕ → Bool → Result (Option ℕ)
interval_loop zero months days candidate after inclusive = ok none
interval_loop (suc left) months days candidate after inclusive =
    advance months days candidate >>= λ next.
    let rest = interval_loop left months days next after inclusive in
    if is_future next after inclusive then ok (some next) else rest

unfoldable pub custom_interval_after : Option ℕ → Config → ℕ → Bool → Result (Option ℕ)
custom_interval_after none config after inclusive = ok none
custom_interval_after (some anchor) config after inclusive =
    let months = get_or config.interval_months 0 in
    let days = get_or config.interval_days 0 in
    if months == 0 && days == 0
    then err recurrence_error
    else interval_loop 400 months days anchor after inclusive

unfoldable pub manual_date_after : Option ℕ → Option ManualText → ℕ → Bool → Result (Option ℕ)
manual_date_after (some d) text after inclusive = once (some d) after inclusive
manual_date_after none none after inclusive = ok none
manual_date_after none (some (iso d)) after inclusive = once (some d) after inclusive
manual_date_after none (some (not_iso s)) after inclusive = err recurrence_error

unfoldable pub next_occurrence :
    RecurrenceType → Config → RecurrenceContext → ℕ → Bool → Result (Option ℕ)
next_occurrence fixed_annual_date config context after inclusive =
    fixed_annual config.month config.day after inclusive
next_occurrence issue_anniversary config context after inclusive =
    issue_anniversary_after (or_else context.issue_date context.effective_date) config after
      inclusive
next_occurrence expiration_anniversary config context after inclusive =
    expiration_anniversary_after context.expiration_date config after inclusive
next_occurrence regulator_supplied config context after inclusive =
    once context.regulator_supplied_due_date after inclusive
next_occurrence nmls_annual_renewal_window config context after inclusive = found (
    next_annual (get_or config.window_end_month 12) (get_or config.window_end_day 31) after
      inclusive)
next_occurrence bond_expiration config context after inclusive =
    once context.bond_expiration_date after inclusive
next_occurrence annual_report_date config context after inclusive =
    annual_report_after context.annual_report_date config after inclusive
next_occurrence relative_to_case_event config context after inclusive =
    case_event_offset context.case_event_date config
next_occurrence custom_interval config context after inclusive =
    custom_interval_after
      (or_else context.last_completed_date
        (or_else context.expiration_date (or_else context.effective_date context.issue_date)))
      config after inclusive
next_occurrence manual_date config context after inclusive =
    manual_date_after context.manual_date config.manual_text after inclusive
next_occurrence (unsupported s) config context after inclusive = err recurrence_error

unfoldable pub single_shot : RecurrenceType → Bool
single_shot regulator_supplied = true
single_shot bond_expiration = true
single_shot manual_date = true
single_shot relative_to_case_event = true
single_shot _ = false

module _ (type : RecurrenceType) (config : Config) (context : RecurrenceContext)
    (horizon_end : ℕ) where
  -- The loop of `expand`, with the occurrences from the cursor on.
  unfoldable pub expand_from : ℕ → ℕ → Bool → Result (List ℕ)
  expand_from zero cursor inclusive = ok []
  expand_from (suc limit) cursor inclusive =
      next_occurrence type config context cursor inclusive >>= λ next. elim next [
        | none ↦ ok []
        | some d ↦
            let rest = expand_from limit d false in
            if ltb horizon_end d
            then ok []
            else if single_shot type
            then ok (d ∷ [])
            else (rest >>= λ ds. ok (d ∷ ds))
      ]

  unfoldable pub expand : ℕ → ℕ → Result (List ℕ)
  expand start limit = expand_from limit start true
