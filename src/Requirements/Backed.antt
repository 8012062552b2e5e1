-- ===== src/Requirements/Backed.antt =====
-- What stands behind the results of `evaluate_jurisdiction` in app/requirements/evaluator.py.
use mathlib.Core.Path.{subst}
use astra_licensing_graph.Prelude.{
  ◌≤◌, ◌↔◌, ◌≡◌, refl, inl, inr, Bool, true, false, not, ◌&&◌, ◌||◌, some, List, [], ◌∷◌, map,
  Fields, ltb, if◌then◌else◌, any, All, arith, Bool-cases, Option-cases, some-inj,
}
use astra_licensing_graph.Requirements.Comparisons.{Python}
use astra_licensing_graph.Requirements.Taxonomy.{
  RequirementOutcome, caution_rank, SourceFreshnessStatus, stale, no_source, severity, worst_of,
  summarize,
}
use astra_licensing_graph.Requirements.Rules.{Rule}
use astra_licensing_graph.Requirements.Reconcile.{gather, Reconciled, reconcile, is_not_required}
use astra_licensing_graph.Requirements.Sources.{Cited, Freshness, collect_citations, from_authority}
use astra_licensing_graph.Requirements.Evaluator.{
  EvaluationSettings, JurisdictionResult, Verdict, is_confident, is_unsupported, check_freshness,
  check_authority, check_not_required, first_verdict, verdict, is_nonempty, Query, effective_rules,
  outside, result_of, evaluate_jurisdiction, empty_trace,
}

abbrev IsSupported : SourceFreshnessStatus → Type 0
IsSupported s = is_unsupported s ≡ false

IsSupported-severity : (s : SourceFreshnessStatus) → IsSupported s ↔ (severity s ≤ 2)
unfolding severity
IsSupported-severity no_source = ground arith
IsSupported-severity stale = ground arith
IsSupported-severity _ = (λ h. omega arith, λ h. refl)

worse-IsSupported :
    (s t : SourceFreshnessStatus)
    → IsSupported (if ltb (severity s) (severity t) then t else s)
    → IsSupported s × IsSupported t
worse-IsSupported s t h =
    let low_s = IsSupported-severity s in
    let low_t = IsSupported-severity t in
    elim (Bool-cases (ltb (severity s) (severity t))) [
      | inl less ↦ let k = rw less at h in ground (arith, k, less, low_s, low_t)
      | inr more ↦ let k = rw more at h in ground (arith, k, more, low_s, low_t)
    ]

worst_of-IsSupported :
    (s : SourceFreshnessStatus) (ts : List SourceFreshnessStatus)
    → IsSupported (worst_of s ts)
    → IsSupported s × All IsSupported ts
unfolding worst_of
worst_of-IsSupported s [] h = (h, tt)
worst_of-IsSupported s (t ∷ ts) h =
    let (worse, rest) =
      worst_of-IsSupported (if ltb (severity s) (severity t) then t else s) ts h in
    let (here, next) = worse-IsSupported s t worse in (here, (next, rest))

summarize-IsSupported :
    (cs : List Cited)
    → IsSupported (summarize (map (λ (c : Cited). c.status) cs))
    → (is_nonempty cs ≡ true) × All (λ (c : Cited). IsSupported c.status) cs
unfolding summarize
summarize-IsSupported [] h = ground arith
summarize-IsSupported (c ∷ cs) h =
    let (here, rest) = worst_of-IsSupported c.status (map (λ (d : Cited). d.status) cs) h in
    (refl, (here, All-map cs rest))
  where
    All-map :
        (ds : List Cited)
        → All IsSupported (map (λ (d : Cited). d.status) ds)
        → All (λ (d : Cited). IsSupported d.status) ds
    All-map [] ps = tt
    All-map (d ∷ ds) ps = (ps.0, All-map ds ps.1)

-- What a confident verdict stands on.
abbrev pub IsBacked : EvaluationSettings → List Cited → RequirementOutcome → Bool → Type 0
IsBacked policy citations outcome counsel =
    (is_nonempty citations ≡ true)
    × All (λ (c : Cited). IsSupported c.status) citations
    × (not policy.escalate_non_authoritative_sources || any from_authority citations ≡ true)
    × (not (policy.require_counsel_for_not_required && is_not_required outcome) || counsel ≡ true)

check_freshness-confident :
    (s : SourceFreshnessStatus) (v : Verdict)
    → is_confident (check_freshness s v).outcome ≡ true
    → IsSupported s
unfolding check_freshness caution_rank
check_freshness-confident s v h = ground arith

module _ (policy : EvaluationSettings) where
  check_authority-confident :
      (chosen : List Rule) (cs : List Cited) (v : Verdict)
      → is_nonempty chosen ≡ true
      → is_nonempty cs ≡ true
      → is_confident (check_authority policy chosen cs v).outcome ≡ true
      → not policy.escalate_non_authoritative_sources || any from_authority cs ≡ true
  unfolding check_authority caution_rank
  check_authority-confident chosen cs v c n h = ground arith

  check_authority-stays :
      (chosen : List Rule) (cs : List Cited) (v : Verdict)
      → is_confident (check_authority policy chosen cs v).outcome ≡ true
      → is_confident v.outcome ≡ true
  unfolding check_authority caution_rank
  check_authority-stays chosen cs v h = ground arith

  check_not_required-outcome : (v : Verdict) → (check_not_required policy v).outcome ≡ v.outcome
  unfolding check_not_required
  check_not_required-outcome v = ground arith

  check_not_required-counsel :
      (v : Verdict)
      → not (policy.require_counsel_for_not_required && is_not_required v.outcome)
          || (check_not_required policy v).requires_counsel
        ≡ true
  unfolding check_not_required
  check_not_required-counsel v = ground arith

chosen_of_cited :
    (fs : Freshness) (chosen : List Rule)
    → is_nonempty (collect_citations fs [] chosen) ≡ true
    → is_nonempty chosen ≡ true
unfolding collect_citations
chosen_of_cited fs [] h = h
chosen_of_cited fs (r ∷ rs) h = refl

verdict-IsBacked :
    (policy : EvaluationSettings) (r : Reconciled) (fs : Freshness)
    → is_confident (verdict policy r (collect_citations fs [] r.chosen)).outcome ≡ true
    → IsBacked policy
        (collect_citations fs [] r.chosen)
        (verdict policy r (collect_citations fs [] r.chosen)).outcome
        (verdict policy r (collect_citations fs [] r.chosen)).requires_counsel
unfolding verdict
verdict-IsBacked policy r fs h =
    let cs = collect_citations fs [] r.chosen in
    let status = summarize (map (λ (c : Cited). c.status) cs) in
    let checked = check_freshness status (first_verdict r) in
    let w = check_authority policy r.chosen cs checked in
    let same = check_not_required-outcome policy w in
    let confident : is_confident w.outcome ≡ true = rw same at h in
    let supported =
      check_freshness-confident status (first_verdict r)
        (check_authority-stays policy r.chosen cs checked confident) in
    let (cited, each) = summarize-IsSupported cs supported in
    (
      cited,
      each,
      check_authority-confident policy r.chosen cs checked (chosen_of_cited fs r.chosen cited) cited
          confident,
      rw same (check_not_required-counsel policy w),
    )

-- A result that says LIKELY_REQUIRED or LIKELY_NOT_REQUIRED cites at least one source; no cited source
-- is stale; under the policy for non-authoritative sources one of them is authoritative; and under
-- the policy for LIKELY_NOT_REQUIRED that answer is flagged for counsel review.
pub evaluate_jurisdiction-IsBacked :
    (py : Python) (q : Query) (rules : List Rule) (facts : Fields) (x : JurisdictionResult)
    → evaluate_jurisdiction py q rules facts ≡ some x
    → is_confident x.outcome ≡ true
    → IsBacked q.settings x.source_citations x.outcome x.requires_counsel_review
unfolding evaluate_jurisdiction outside result_of caution_rank
evaluate_jurisdiction-IsBacked py q rules facts x e h = elim (Bool-cases q.in_scope) [
  | inr out ↦ let same : outside q ≡ x = some-inj (rw out at e) in absurd (ground (arith, same, h))
  | inl within ↦ elim (Option-cases (gather py (effective_rules q rules) facts empty_trace)) [
    | inl raised ↦ absurd (ground (arith, rw (within, raised) at e))
    | inr (g, gathered) ↦
        let same : result_of q (effective_rules q rules) g ≡ x =
          some-inj (rw (within, gathered) at e) in
        subst
          (λ (y : JurisdictionResult).
            is_confident y.outcome ≡ true
            → IsBacked q.settings y.source_citations y.outcome y.requires_counsel_review)
          same
          (verdict-IsBacked q.settings (reconcile (effective_rules q rules) g)
            q.freshness_by_snapshot)
          h
  ]
]
