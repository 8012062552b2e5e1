-- ===== src/Deadlines/Expansion.antt =====
-- The date that `next_occurrence` of app/deadlines/recurrence.py finds, type by type.
use astra_licensing_graph.Prelude.{
  ℕ, zero, suc, ◌+◌, ◌≤◌, ◌≡◌, refl, ◌≢◌, ◌⊎◌, inl, inr, Bool, true, false, Option, none, some,
  List, [], ◌∷◌, arith, Bool-cases,
}
use astra_licensing_graph.Deadlines.Dates.{year_of, month_of, day_of}
use astra_licensing_graph.Deadlines.Recurrence.{
  RecurrenceType, fixed_annual_date, issue_anniversary, expiration_anniversary, regulator_supplied,
  nmls_annual_renewal_window, bond_expiration, annual_report_date, relative_to_case_event,
  custom_interval, manual_date, unsupported, ManualText, iso, not_iso, RecurrenceContext, Config,
  Error, Result, ok, err, clamp_date, safe_date, is_past, is_future, next_yearly, next_annual,
  found, get_or, once, fixed_annual, issue_anniversary_after, report_fallback, annual_report_after,
  advance, interval_loop, custom_interval_after, manual_date_after, next_occurrence,
}
use astra_licensing_graph.Deadlines.Occurrences.{clamp-after}

-- Whether each date lies after the one before it, the first after the cursor.
abbrev pub IsIncreasing : ℕ → Bool → List ℕ → Type 0
IsIncreasing cursor inclusive [] = Unit
IsIncreasing cursor inclusive (d ∷ ds) =
    (is_future d cursor inclusive ≡ true) × IsIncreasing d false ds

pub Result-cases :
    {A : Type 0} (r : Result A) → ((a : A) × (r ≡ ok a)) ⊎ ((e : Error) × (r ≡ err e))
Result-cases (ok a) = inl (a, refl)
Result-cases (err e) = inr (e, refl)

safe_date-ok :
    (y m d : ℕ) {r : ℕ}
    → safe_date y m d ≡ ok r
    → (r ≡ clamp_date y m d) × (1 ≤ m) × (m ≤ 12) × (1 ≤ d)
unfolding safe_date
safe_date-ok y m d h = ground arith

safe_date-future :
    (k m d after : ℕ) (inclusive : Bool) {r : ℕ}
    → 1 ≤ after
    → 1 ≤ k
    → safe_date (year_of after + k) m d ≡ ok r
    → is_future r after inclusive ≡ true
safe_date-future k m d after inclusive {r} h hk e =
    let (at, lo, hi, day) = safe_date-ok (year_of after + k) m d e in
    let later = clamp-after m d lo hi day (year_of after + k) after h (omega arith) in
    ground (arith, later, at)

next_yearly-future :
    (k m d after : ℕ) (inclusive : Bool) {r : ℕ}
    → 1 ≤ after
    → 1 ≤ k
    → next_yearly k m d after inclusive ≡ ok r
    → is_future r after inclusive ≡ true
unfolding next_yearly
next_yearly-future k m d after inclusive h hk e =
    elim (Result-cases (safe_date (year_of after) m d)) [
      | inl (c, this) ↦ elim (Bool-cases (is_past c after inclusive)) [
        | inl past ↦ safe_date-future k m d after inclusive h hk (ground (arith, this, past))
        | inr now ↦ ground (arith, this, now)
      ]
      | inr (x, bad) ↦ absurd (ground (arith, bad))
    ]

once-future :
    (a : Option ℕ) (after : ℕ) (inclusive : Bool) {r : ℕ}
    → once a after inclusive ≡ ok (some r)
    → is_future r after inclusive ≡ true
unfolding once
once-future none after inclusive e = cc
once-future (some a) after inclusive e = ground arith

interval_loop-future :
    (left months days candidate after : ℕ) (inclusive : Bool) {r : ℕ}
    → interval_loop left months days candidate after inclusive ≡ ok (some r)
    → is_future r after inclusive ≡ true
unfolding interval_loop
interval_loop-future zero months days candidate after inclusive e = cc
interval_loop-future (suc left) months days candidate after inclusive {r} e =
    elim (Result-cases (advance months days candidate)) [
      | inl (c, next) ↦
          ground (arith, next, interval_loop-future left months days c after inclusive {r = r})
      | inr (x, bad) ↦ absurd (ground (arith, bad))
    ]

found-inv : (x : Result ℕ) {r : ℕ} → found x ≡ ok (some r) → x ≡ ok r
found-inv (ok a) e = cc
found-inv (err x) e = cc

module _ (after : ℕ) (inclusive : Bool) (h : 1 ≤ after) where
  fixed-future :
      (m d : Option ℕ) {r : ℕ}
      → fixed_annual m d after inclusive ≡ ok (some r)
      → is_future r after inclusive ≡ true
  unfolding fixed_annual next_annual
  fixed-future (some m) (some d) e =
      next_yearly-future 1 m d after inclusive h (omega arith) (found-inv _ e)
  fixed-future _ _ e = cc

  issue-future :
      (anchor : Option ℕ) (config : Config) {r : ℕ}
      → 1 ≤ get_or config.interval_years 1
      → issue_anniversary_after anchor config after inclusive ≡ ok (some r)
      → is_future r after inclusive ≡ true
  unfolding issue_anniversary_after
  issue-future none config k e = cc
  issue-future (some a) config k e =
      next_yearly-future (get_or config.interval_years 1) (month_of a) (day_of a) after inclusive h
        k (found-inv _ e)

  fallback-future :
      (anchor m d : Option ℕ) {r : ℕ}
      → report_fallback anchor m d after inclusive ≡ ok (some r)
      → is_future r after inclusive ≡ true
  unfolding report_fallback next_annual
  fallback-future anchor (some m) (some d) e =
      next_yearly-future 1 m d after inclusive h (omega arith) (found-inv _ e)
  fallback-future none none d e = cc
  fallback-future none (some m) none e = cc
  fallback-future (some a) none d e =
      safe_date-future 1 (month_of a) (day_of a) after inclusive h (omega arith) (found-inv _ e)
  fallback-future (some a) (some m) none e =
      safe_date-future 1 (month_of a) (day_of a) after inclusive h (omega arith) (found-inv _ e)

  report-future :
      (anchor : Option ℕ) (config : Config) {r : ℕ}
      → annual_report_after anchor config after inclusive ≡ ok (some r)
      → is_future r after inclusive ≡ true
  unfolding annual_report_after
  report-future none config e = fallback-future none config.month config.day e
  report-future (some a) config e = elim (Bool-cases (is_future a after inclusive)) [
    | inl now ↦ ground (arith, now)
    | inr later ↦ fallback-future (some a) config.month config.day (rw later at e)
  ]

  custom-future :
      (anchor : Option ℕ) (config : Config) {r : ℕ}
      → custom_interval_after anchor config after inclusive ≡ ok (some r)
      → is_future r after inclusive ≡ true
  unfolding custom_interval_after
  custom-future none config e = cc
  custom-future (some a) config {r} e = ground (
    arith,
    interval_loop-future 400 (get_or config.interval_months 0) (get_or config.interval_days 0) a
        after inclusive {r = r},
  )

  manual-future :
      (d : Option ℕ) (text : Option ManualText) {r : ℕ}
      → manual_date_after d text after inclusive ≡ ok (some r)
      → is_future r after inclusive ≡ true
  unfolding manual_date_after
  manual-future (some d) text e = once-future (some d) after inclusive e
  manual-future none none e = cc
  manual-future none (some (iso d)) e = once-future (some d) after inclusive e
  manual-future none (some (not_iso s)) e = cc

  -- With a positive yearly interval, and a given day of year 1 or later, every date that a recurrence finds lies after the given day, or
  -- on it if inclusive, for every type but the anniversary of an expiration and the offset from a
  -- case event.
  pub next_occurrence-future :
      (type : RecurrenceType) (config : Config) (context : RecurrenceContext) (r : ℕ)
      → type ≢ expiration_anniversary
      → type ≢ relative_to_case_event
      → 1 ≤ get_or config.interval_years 1
      → next_occurrence type config context after inclusive ≡ ok (some r)
      → is_future r after inclusive ≡ true
  unfolding next_occurrence next_annual
  next_occurrence-future fixed_annual_date config context r n m k e =
      fixed-future config.month config.day e
  next_occurrence-future issue_anniversary config context r n m k e = issue-future _ config k e
  next_occurrence-future expiration_anniversary config context r n m k e = absurd (n refl)
  next_occurrence-future regulator_supplied config context r n m k e =
      once-future _ after inclusive e
  next_occurrence-future nmls_annual_renewal_window config context r n m k e =
      next_yearly-future 1 _ _ after inclusive h (omega arith) (found-inv _ e)
  next_occurrence-future bond_expiration config context r n m k e = once-future _ after inclusive e
  next_occurrence-future annual_report_date config context r n m k e = report-future _ config e
  next_occurrence-future relative_to_case_event config context r n m k e = absurd (m refl)
  next_occurrence-future custom_interval config context r n m k e = custom-future _ config e
  next_occurrence-future manual_date config context r n m k e =
      manual-future context.manual_date config.manual_text e
  next_occurrence-future (unsupported s) config context r n m k e = cc
