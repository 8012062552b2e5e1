-- ===== src/Requirements/Conflicts.antt =====
-- The answers of `evaluate_jurisdiction` in app/requirements/evaluator.py when rules disagree and when
-- none matches.
use astra_licensing_graph.Prelude.{
  ◌≡◌, ◌≢◌, refl, ◌∙◌, ap, inl, inr, Bool, true, false, some, List, [], ◌∷◌, map, Fields, select,
  All, Among, Among-select, some-inj, arith,
}
use astra_licensing_graph.Requirements.Conditions.{Node}
use astra_licensing_graph.Requirements.Comparisons.{fails, Python}
use astra_licensing_graph.Requirements.Evaluation.{EvaluationTrace, evaluate}
use astra_licensing_graph.Requirements.Taxonomy.{
  RequirementOutcome, likely_required, possibly_required, likely_not_required, counsel_review,
  caution_rank, same_outcome, summarize, out_of_scope, insufficient_information,
}
use astra_licensing_graph.Requirements.Rules.{Rule, specificity}
use astra_licensing_graph.Requirements.Reconcile.{
  Note, Gathered, gather, Reconciled, reconcile, more_cautious, most_cautious, is_peer, arbitrate,
  with_unresolved, with_matches,
}
use astra_licensing_graph.Requirements.Sources.{Cited, collect_citations}
use astra_licensing_graph.Requirements.Evaluator.{
  EvaluationSettings, JurisdictionResult, check_freshness, check_authority, check_not_required,
  first_verdict, verdict, Query, effective_rules, result_of, evaluate_jurisdiction, empty_trace,
}

-- The answer leaves the decision to counsel.
abbrev pub IsReferred : RequirementOutcome → Bool → Type 0
IsReferred outcome counsel = (outcome ≡ counsel_review) × (counsel ≡ true)

counsel_stays :
    (policy : EvaluationSettings) (r : Reconciled) (cs : List Cited)
    → r.outcome ≡ counsel_review
    → IsReferred (verdict policy r cs).outcome (verdict policy r cs).requires_counsel
unfolding verdict check_not_required check_authority check_freshness first_verdict caution_rank
counsel_stays policy r cs h = ground arith

more_cautious-counsel : (o : RequirementOutcome) → more_cautious o counsel_review ≡ counsel_review
unfolding more_cautious caution_rank
more_cautious-counsel counsel_review = refl
more_cautious-counsel _ = refl

with_unresolved-counsel :
    (us : List Rule) (notes : List Note)
    → (with_unresolved us counsel_review notes).0 ≡ counsel_review
unfolding with_unresolved caution_rank
with_unresolved-counsel [] notes = refl
with_unresolved-counsel (u ∷ us) notes = refl

different_outcomes : (a b : RequirementOutcome) → a ≢ b → same_outcome a b ≡ false
unfolding caution_rank
different_outcomes likely_required likely_required h = absurd (h refl)
different_outcomes possibly_required possibly_required h = absurd (h refl)
different_outcomes likely_not_required likely_not_required h = absurd (h refl)
different_outcomes counsel_review counsel_review h = absurd (h refl)
different_outcomes out_of_scope out_of_scope h = absurd (h refl)
different_outcomes insufficient_information insufficient_information h = absurd (h refl)
different_outcomes _ _ h = refl

-- A peer with another outcome refers the decision.
arbitrate-peers :
    (primary m : Rule) (ps : List Rule)
    → Among m ps
    → ((arbitrate primary ps).0 ≡ counsel_review)
      × Among primary.id (arbitrate primary ps).1
      × Among m.id (arbitrate primary ps).1
unfolding arbitrate
arbitrate-peers primary m [] among = elim among [ ]
arbitrate-peers primary m (p ∷ ps) among = (
  more_cautious-counsel (most_cautious primary.outcome (p ∷ ps)),
  inl refl,
  inr (Among-ids (p ∷ ps) among),
)
  where
    Among-ids : (rs : List Rule) → Among m rs → Among m.id (map (λ (r : Rule). r.id) rs)
    Among-ids [] a = elim a [ ]
    Among-ids (r ∷ rs) (inl e) = inl (rw e refl)
    Among-ids (r ∷ rs) (inr a) = inr (Among-ids rs a)

with_matches-peers :
    (primary m : Rule) (ms us : List Rule)
    → Among m ms
    → is_peer primary m ≡ true
    → ((with_matches (primary ∷ ms) us).outcome ≡ counsel_review)
      × Among primary.id (with_matches (primary ∷ ms) us).conflicting
      × Among m.id (with_matches (primary ∷ ms) us).conflicting
unfolding with_matches
with_matches-peers primary m ms us among peer =
    let ps = select (is_peer primary) (primary ∷ ms) in
    let listed = (Among-select (is_peer primary) m (primary ∷ ms)).1 (inr among, peer) in
    let (referred, first, second) = arbitrate-peers primary m ps listed in
    (rw referred (with_unresolved-counsel us (arbitrate primary ps).2), first, second)

abbrev unmatched : EvaluationTrace → Gathered
unmatched t = record { matches = []; unknown_matches = []; trace = t }

-- The trace has no influence on the result.
evaluate_traced :
    (py : Python) (n : Node) (facts : Fields) (t t' : EvaluationTrace)
    → (evaluate py n facts t).0 ≡ (evaluate py n facts t').0
unfolding evaluate
evaluate_traced py n facts t t' = refl

gather-skip :
    (py : Python) (r : Rule) (rs : List Rule) (facts : Fields) (t : EvaluationTrace) (g : Gathered)
    → (evaluate py r.conditions facts t).0 ≡ some fails
    → gather py rs facts (evaluate py r.conditions facts t).1 ≡ some g
    → gather py (r ∷ rs) facts t ≡ some g
unfolding gather
gather-skip py r rs facts t g h k = rw (gather, h, k) refl

gather-fails :
    (py : Python) (rs : List Rule) (facts : Fields) (t : EvaluationTrace)
    → All (λ (r : Rule). (evaluate py r.conditions facts empty_trace).0 ≡ some fails) rs
    → (t' : EvaluationTrace) × (gather py rs facts t ≡ some (unmatched t'))
unfolding gather
gather-fails py [] facts t h = (t, refl)
gather-fails py (r ∷ rs) facts t h =
    let (t', e) = gather-fails py rs facts (evaluate py r.conditions facts t).1 h.1 in
    let fails_here = evaluate_traced py r.conditions facts t empty_trace ∙ h.0 in
    (t', gather-skip py r rs facts t _ fails_here e)

is_peer_of :
    (primary m : Rule)
    → specificity m ≡ specificity primary
    → m.priority ≡ primary.priority
    → m.outcome ≢ primary.outcome
    → is_peer primary m ≡ true
unfolding is_peer
is_peer_of primary m s p o =
    let other = different_outcomes m.outcome primary.outcome o in ground (arith, s, p, other)

-- Something was gathered, so there are rules.
reconcile-peers :
    (py : Python) (primary m : Rule) (effective ms : List Rule) (facts : Fields) (g : Gathered)
    → gather py effective facts empty_trace ≡ some g
    → g.matches ≡ primary ∷ ms
    → Among m ms
    → is_peer primary m ≡ true
    → ((reconcile effective g).outcome ≡ counsel_review)
      × Among primary.id (reconcile effective g).conflicting
      × Among m.id (reconcile effective g).conflicting
unfolding reconcile gather
reconcile-peers py primary m [] ms facts g gathered some_match among peer =
    absurd (cc (ap (λ (x : Gathered). x.matches) (some-inj gathered), some_match))
reconcile-peers py primary m (r ∷ rs) ms facts g gathered some_match among peer =
    rw some_match (with_matches-peers primary m ms g.unknown_matches among peer)

evaluated :
    (py : Python) (q : Query) (rules : List Rule) (facts : Fields) (g : Gathered)
    → q.in_scope ≡ true
    → gather py (effective_rules q rules) facts empty_trace ≡ some g
    → evaluate_jurisdiction py q rules facts ≡ some (result_of q (effective_rules q rules) g)
unfolding evaluate_jurisdiction result_of
evaluated py q rules facts g within gathered = rw (within, gathered) refl

-- When two rules that match have the same specificity and priority but different outcomes, and one
-- of them is the first match, the result is COUNSEL_REVIEW, is flagged for counsel and lists both
-- rules as conflicting, whatever the sources and the policies.
pub evaluate_jurisdiction-conflict :
    (py : Python) (q : Query) (rules : List Rule) (facts : Fields) (g : Gathered) (primary m : Rule)
    (ms : List Rule)
    → q.in_scope ≡ true
    → gather py (effective_rules q rules) facts empty_trace ≡ some g
    → g.matches ≡ primary ∷ ms
    → Among m ms
    → specificity m ≡ specificity primary
    → m.priority ≡ primary.priority
    → m.outcome ≢ primary.outcome
    → (x : JurisdictionResult) × (evaluate_jurisdiction py q rules facts ≡ some x)
      × IsReferred x.outcome x.requires_counsel_review
      × Among primary.id x.conflicting_rule_ids
      × Among m.id x.conflicting_rule_ids
unfolding result_of
evaluate_jurisdiction-conflict py q rules facts g primary m ms within gathered some_match among s p
      o =
    let effective = effective_rules q rules in
    let r = reconcile effective g in
    let cs = collect_citations q.freshness_by_snapshot [] r.chosen in
    let (referred, first, second) =
      reconcile-peers py primary m effective ms facts g gathered some_match among
        (is_peer_of primary m s p o) in
    (
      result_of q effective g,
      evaluated py q rules facts g within gathered,
      counsel_stays q.settings r cs referred,
      first,
      second,
    )

-- Without a citation LIKELY_NOT_REQUIRED is withdrawn.
not_backed :
    (policy : EvaluationSettings)
    → IsReferred
        (verdict policy (with_matches [] []) []).outcome
        (verdict policy (with_matches [] []) []).requires_counsel
unfolding verdict check_not_required check_authority check_freshness first_verdict with_matches
    caution_rank summarize
not_backed policy = ground arith

-- When some rules are in force and in scope but all of them evaluate to FALSE, the result is
-- COUNSEL_REVIEW, flagged for counsel and without a source: never LIKELY_NOT_REQUIRED.
pub evaluate_jurisdiction-no_match :
    (py : Python) (q : Query) (rules : List Rule) (facts : Fields) (r : Rule) (rs : List Rule)
    → q.in_scope ≡ true
    → effective_rules q rules ≡ r ∷ rs
    → All (λ (m : Rule). (evaluate py m.conditions facts empty_trace).0 ≡ some fails) (r ∷ rs)
    → (x : JurisdictionResult) × (evaluate_jurisdiction py q rules facts ≡ some x)
      × IsReferred x.outcome x.requires_counsel_review
      × (x.source_citations ≡ [])
unfolding result_of reconcile with_matches collect_citations
evaluate_jurisdiction-no_match py q rules facts r rs within effective all_fail =
    let (t, gathered) = gather-fails py (r ∷ rs) facts empty_trace all_fail in
    (
      result_of q (r ∷ rs) (unmatched t),
      evaluated py q rules facts (unmatched t) within (rw effective gathered)
          ∙ ap (λ es. some (result_of q es (unmatched t))) effective,
      not_backed q.settings,
      refl,
    )
