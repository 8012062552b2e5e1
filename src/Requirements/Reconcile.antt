-- ===== src/Requirements/Reconcile.antt =====
-- The middle of `evaluate_jurisdiction` in app/requirements/evaluator.py: the rules that match, and
-- what they come to. `none` is a TypeError out of the evaluation of a rule. The texts are left out.
use astra_licensing_graph.Prelude.{
  ℕ, Bool, not, ◌&&◌, Option, none, some, List, [], ◌∷◌, ◌++◌, map, Fields, ◌==◌, if◌then◌else◌,
  select, ltb,
}
use astra_licensing_graph.Requirements.Comparisons.{Truth, holds, fails, unknown, Python}
use astra_licensing_graph.Requirements.Evaluation.{EvaluationTrace, evaluate}
use astra_licensing_graph.Requirements.Taxonomy.{
  RequirementOutcome, possibly_required, likely_not_required, counsel_review,
  insufficient_information, caution_rank, same_outcome,
}
use astra_licensing_graph.Requirements.Rules.{Rule, specificity}

pub data Note : Type 0 where
  no_rules_in_scope conflicting_rules_equal_precedence downgraded_by_unresolved_rule
        all_candidate_rules_unresolved downgraded_by_source_freshness no_authoritative_source :
      Note

unfoldable pub more_cautious : RequirementOutcome → RequirementOutcome → RequirementOutcome
more_cautious left right = if ltb (caution_rank left) (caution_rank right) then right else left

-- The rules that evaluate to TRUE and to UNKNOWN, in order, and the trace they share.
pub record Gathered : Type 0 where
  pub matches : List Rule
  pub unknown_matches : List Rule
  pub trace : EvaluationTrace

abbrev pub sort_into : Truth → Rule → Gathered → Gathered
sort_into holds r g = record g { matches = r ∷ g.matches }
sort_into unknown r g = record g { unknown_matches = r ∷ g.unknown_matches }
sort_into fails r g = g

unfoldable pub gather : Python → List Rule → Fields → EvaluationTrace → Option Gathered
gather py [] facts t = some (record { matches = []; unknown_matches = []; trace = t })
gather py (r ∷ rs) facts t =
    let result = evaluate py r.conditions facts t in
    let rest = gather py rs facts result.1 in
    elim result.0 [
      | none ↦ none
      | some truth ↦ elim rest [ none ↦ none | some g ↦ some (sort_into truth r g) ]
    ]

-- What the matches come to before the sources are looked at.
pub record Reconciled : Type 0 where
  pub outcome : RequirementOutcome
  pub chosen : List Rule
  pub conflicting : List ℕ
  pub notes : List Note

unfoldable pub is_peer : Rule → Rule → Bool
is_peer primary m =
    specificity m == specificity primary
    && m.priority == primary.priority
    && not (same_outcome m.outcome primary.outcome)

unfoldable pub most_cautious : RequirementOutcome → List Rule → RequirementOutcome
most_cautious o [] = o
most_cautious o (r ∷ rs) = most_cautious (more_cautious o r.outcome) rs

-- The outcome, the conflicting ids and the notes when `primary` is the first match.
unfoldable pub arbitrate : Rule → List Rule → RequirementOutcome × List ℕ × List Note
arbitrate primary [] = (primary.outcome, [], [])
arbitrate primary (p ∷ ps) = (
  more_cautious (most_cautious primary.outcome (p ∷ ps)) counsel_review,
  primary.id ∷ map (λ (m : Rule). m.id) (p ∷ ps),
  conflicting_rules_equal_precedence ∷ [],
)

abbrev pub is_not_required : RequirementOutcome → Bool
is_not_required o = same_outcome o likely_not_required

unfoldable pub with_unresolved :
    List Rule → RequirementOutcome → List Note → RequirementOutcome × List Note
with_unresolved [] o notes = (o, notes)
with_unresolved (u ∷ us) o notes =
    if is_not_required o
    then (possibly_required, notes ++ downgraded_by_unresolved_rule ∷ [])
    else (o, notes)

unfoldable pub with_matches : List Rule → List Rule → Reconciled
with_matches [] [] = record {
  outcome = likely_not_required;
  chosen = [];
  conflicting = [];
  notes = [];
}
with_matches [] (u ∷ us) = record {
  outcome = insufficient_information;
  chosen = u ∷ us;
  conflicting = [];
  notes = all_candidate_rules_unresolved ∷ [];
}
with_matches (primary ∷ ms) us =
    let (o, ids, notes) = arbitrate primary (select (is_peer primary) (primary ∷ ms)) in
    let (o', notes') = with_unresolved us o notes in
    record { outcome = o'; chosen = primary ∷ ms; conflicting = ids; notes = notes' }

unfoldable pub reconcile : List Rule → Gathered → Reconciled
reconcile [] g = record {
  outcome = insufficient_information;
  chosen = [];
  conflicting = [];
  notes = no_rules_in_scope ∷ [];
}
reconcile (r ∷ rs) g = with_matches g.matches g.unknown_matches
