-- ===== src/Deadlines/Expanded.antt =====
-- What `expand` of app/deadlines/recurrence.py lists.
use mathlib.Core.Path.{subst}
use astra_licensing_graph.Prelude.{
  ℕ, zero, suc, ◌+◌, ◌≤◌, ◌≡◌, refl, ◌≢◌, inl, inr, Bool, true, false, none, some, List, [], ◌∷◌,
  arith, All, Bool-cases, length, ltb, if◌then◌else◌, replicate,
}
use astra_licensing_graph.Deadlines.Dates.{year_of, month_of, day_of}
use astra_licensing_graph.Deadlines.Recurrence.{
  RecurrenceType, expiration_anniversary, relative_to_case_event, RecurrenceContext, Config, ok,
  ◌>>=◌, is_future, get_or, next_occurrence, single_shot, expand_from, expand, safe_date,
  expiration_anniversary_after,
}
use astra_licensing_graph.Deadlines.Expansion.{IsIncreasing, Result-cases, next_occurrence-future}

-- Dates that lie each after the one before, within the horizon, and are at most `limit`.
pub record Listed (cursor : ℕ) (inclusive : Bool) (horizon_end limit : ℕ) (ds : List ℕ)
    : Type 0 where
  pub increasing : IsIncreasing cursor inclusive ds
  pub within : All (λ d. d ≤ horizon_end) ds
  pub limited : length ds ≤ limit

nothing-Listed : (c : ℕ) (i : Bool) (h n : ℕ) → Listed c i h n []
nothing-Listed c i h n = record { increasing = tt; within = tt; limited = omega arith }

module _ (type : RecurrenceType) (config : Config) (context : RecurrenceContext) (horizon_end : ℕ)
    (n : type ≢ expiration_anniversary) (m : type ≢ relative_to_case_event)
    (k : 1 ≤ get_or config.interval_years 1) where
  -- The round that found `d`.
  from_next :
      (limit cursor : ℕ) (inclusive : Bool) (ds : List ℕ) (d : ℕ)
      → 1 ≤ cursor
      → is_future d cursor inclusive ≡ true
      → (if ltb horizon_end d
          then ok []
          else if single_shot type
          then ok (d ∷ [])
          else (expand_from type config context horizon_end limit d false >>= λ rest.
              ok (d ∷ rest)))
        ≡ ok ds
      → ((ds' : List ℕ)
          → expand_from type config context horizon_end limit d false ≡ ok ds'
          → Listed d false horizon_end limit ds')
      → Listed cursor inclusive horizon_end (suc limit) ds
  from_next limit cursor inclusive ds d h later e rec = elim (Bool-cases (ltb horizon_end d)) [
    | inl past ↦
        let same : [] ≡ ds = ground (arith, past) in
        subst (λ x. Listed cursor inclusive horizon_end (suc limit) x) same
          (nothing-Listed cursor inclusive horizon_end (suc limit))
    | inr within ↦ elim (Bool-cases (single_shot type)) [
      | inl single ↦
          let same : d ∷ [] ≡ ds = ground (arith, within, single) in
          subst (λ x. Listed cursor inclusive horizon_end (suc limit) x) same
            (record {
              increasing = (later, tt);
              within = (ground arith, tt);
              limited = omega arith;
            })
      | inr repeating ↦
          elim (Result-cases (expand_from type config context horizon_end limit d false)) [
            | inr (x, bad) ↦ absurd (ground (arith, within, repeating, bad))
            | inl (ds', more) ↦
                let same : d ∷ ds' ≡ ds = ground (arith, within, repeating, more) in
                let v = rec ds' more in
                subst (λ x. Listed cursor inclusive horizon_end (suc limit) x) same
                  (record {
                    increasing = (later, v.increasing);
                    within = (ground arith, v.within);
                    limited = omega (arith, v.limited);
                  })
          ]
    ]
  ]

  expand_from-Listed :
      (limit cursor : ℕ) (inclusive : Bool) (ds : List ℕ)
      → 1 ≤ cursor
      → expand_from type config context horizon_end limit cursor inclusive ≡ ok ds
      → Listed cursor inclusive horizon_end limit ds
  unfolding expand_from
  expand_from-Listed zero cursor inclusive ds h e =
      let same : [] ≡ ds = cc in
      subst (λ x. Listed cursor inclusive horizon_end 0 x) same
        (nothing-Listed cursor inclusive horizon_end 0)
  expand_from-Listed (suc limit) cursor inclusive ds h e =
      elim (Result-cases (next_occurrence type config context cursor inclusive)) [
        | inr (x, bad) ↦ absurd (ground (arith, bad))
        | inl (none, nothing) ↦
            let same : [] ≡ ds = ground (arith, nothing) in
            subst (λ x. Listed cursor inclusive horizon_end (suc limit) x) same
              (nothing-Listed cursor inclusive horizon_end (suc limit))
        | inl (some d, next) ↦
            let later =
              next_occurrence-future cursor inclusive h type config context d n m k next in
            from_next limit cursor inclusive ds d h later (rw next at e)
              (λ ds' e'. expand_from-Listed limit d false ds' (ground (arith, later)) e')
      ]

-- For a recurrence type other than the anniversary of an expiration and the offset from a case
-- event, with a positive yearly interval and a start of year 1 or later, `expand` lists dates that
-- each lie after the one before, the first on or after the start, all within the horizon, and at
-- most as many as the limit.
pub expand-Listed :
    (type : RecurrenceType) (config : Config) (context : RecurrenceContext)
    (horizon_end start limit : ℕ) (ds : List ℕ)
    → type ≢ expiration_anniversary
    → type ≢ relative_to_case_event
    → 1 ≤ get_or config.interval_years 1
    → 1 ≤ start
    → expand type config context horizon_end start limit ≡ ok ds
    → Listed start true horizon_end limit ds
unfolding expand
expand-Listed type config context horizon_end start limit ds n m k h e =
    expand_from-Listed type config context horizon_end n m k limit start true ds h e

module _ (config : Config) (context : RecurrenceContext) (horizon_end a r : ℕ)
    (anchor : context.expiration_date ≡ some a)
    (renewed : safe_date (year_of a + get_or config.interval_years 1) (month_of a) (day_of a)
      ≡ ok r)
    (within : r ≤ horizon_end) (past : a ≤ r) where
  again :
      (cursor : ℕ)
      → a ≤ cursor
      → next_occurrence expiration_anniversary config context cursor false ≡ ok (some r)
  unfolding next_occurrence expiration_anniversary_after
  again cursor h = rw anchor (ground (arith, renewed))

  repeat_from :
      (limit cursor : ℕ)
      → a ≤ cursor
      → expand_from expiration_anniversary config context horizon_end limit cursor false
        ≡ ok (replicate limit r)
  unfolding expand_from single_shot
  repeat_from zero cursor h = refl
  repeat_from (suc limit) cursor h =
      let rest = repeat_from limit r past in
      let there : ltb horizon_end r ≡ false = ground arith in rw (again cursor h, there, rest) refl

  first_anchor :
      (start : ℕ)
      → start ≤ a
      → next_occurrence expiration_anniversary config context start true ≡ ok (some a)
  unfolding next_occurrence expiration_anniversary_after
  first_anchor start h = rw anchor (ground arith)

  -- For the anniversary of an expiration that lies on or after the start, with its anniversary `r` not
  -- before it and within the horizon, `expand` lists the expiration once and then `r` again and again,
  -- up to the limit.
  pub expand-repeats :
      (start limit : ℕ)
      → start ≤ a
      → expand expiration_anniversary config context horizon_end start (suc limit)
        ≡ ok (a ∷ replicate limit r)
  unfolding expand expand_from single_shot
  expand-repeats start limit h =
      let rest = repeat_from limit a (omega arith) in
      let there : ltb horizon_end a ≡ false = ground arith in
      rw (first_anchor start h, there, rest) refl
