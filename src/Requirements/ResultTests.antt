-- ===== src/Requirements/ResultTests.antt =====
-- Results at concrete rules.
use astra_licensing_graph.Prelude.{
  ◌≡◌, refl, ◌↔◌, inl, true, false, none, some, [], ◌∷◌, boolean, Fields, end, field, Among,
  contains_text,
}
use astra_licensing_graph.Requirements.Conditions.{
  Operator, is_true, is_false, Node, comparison, split_path,
}
use astra_licensing_graph.Requirements.Comparisons.{Python}
use astra_licensing_graph.Requirements.Evaluation.{
  known, resolve_fact, resolve_from, present_value, asks_presence, evaluate, truth_of, compare_fact,
  test_fact, test_value, is_boolean, traced, note_comparison,
}
use astra_licensing_graph.Requirements.Taxonomy.{
  likely_required, likely_not_required, caution_rank, official_primary, fresh, summarize, severity,
  worst_of,
}
use astra_licensing_graph.Requirements.Rules.{
  SourceCitation, Rule, applies, is_effective_on, in_scope_of, specificity, no_later, insert_rule,
  sorted_rules, resolve_effective_rules, text_leb,
}
use astra_licensing_graph.Requirements.Reconcile.{
  gather, reconcile, with_matches, arbitrate, is_peer, with_unresolved,
}
use astra_licensing_graph.Requirements.Sources.{
  collect_citations, collect_channels, add_channels, add_citations, status_of,
}
use astra_licensing_graph.Requirements.Evaluator.{
  JurisdictionResult, Query, evaluate_jurisdiction, result_of, verdict, first_verdict,
  check_freshness, check_authority, check_not_required, missing_facts, declared_missing, sorted_set,
}
use astra_licensing_graph.Requirements.Ranked.{IsApplicable, IsRanked}
use astra_licensing_graph.Requirements.Ordered.{resolve_effective_rules-IsRanked}
use astra_licensing_graph.Requirements.Backed.{IsBacked, evaluate_jurisdiction-IsBacked}
use astra_licensing_graph.Requirements.Conflicts.{
  IsReferred, evaluate_jurisdiction-conflict, evaluate_jurisdiction-no_match,
}

abbrev python : Python
python = record {
  casefold = λ s. s;
  fromisoformat = λ s. none;
  search = λ p s case. contains_text p s;
  str = λ v. "";
}

abbrev asks_lends : Operator → Node
asks_lends o = comparison (record {
  other_keys = false;
  fact = some "lends";
  op = some o;
  value = none;
  case_sensitive = false;
})

abbrev code : SourceCitation
code = record {
  source_id = some 7;
  snapshot_id = some 70;
  title = "Finance code";
  authority_level = official_primary;
  freshness_status = some fresh;
}

abbrev lender_rule : Rule
lender_rule = record {
  id = 1;
  rule_key = "lender";
  outcome = likely_required;
  conditions = asks_lends is_true;
  priority = 10;
  jurisdiction_id = some 48;
  license_type_id = none;
  filing_channels = "nmls" ∷ [];
  required_facts = [];
  effective_from = some 700000;
  effective_to = none;
  requires_counsel_review = false;
  enabled = true;
  citations = code ∷ [];
}

abbrev exempt_rule : Rule
exempt_rule = record lender_rule { id = 2; rule_key = "exempt"; outcome = likely_not_required }

abbrev idle_rule : Rule
idle_rule = record lender_rule { id = 3; rule_key = "idle"; conditions = asks_lends is_false }

abbrev texas : Query
texas = record {
  jurisdiction_id = 48;
  license_type_id = none;
  when = 739000;
  freshness_by_snapshot = [];
  settings = record {
    require_human_review = true;
    require_counsel_for_not_required = true;
    escalate_non_authoritative_sources = true;
  };
  in_scope = true;
}

abbrev lends : Fields
lends = field "lends" (boolean true) end

abbrev required : JurisdictionResult
required = record {
  jurisdiction_id = 48;
  license_type_id = none;
  outcome = likely_required;
  filing_channels = "nmls" ∷ [];
  facts_used = lends;
  missing_facts = [];
  matched_rule_ids = 1 ∷ [];
  conflicting_rule_ids = [];
  source_citations = record { citation = code; status = fresh } ∷ [];
  source_freshness_status = fresh;
  requires_human_review = true;
  requires_counsel_review = false;
  notes = [];
}

evaluate_jurisdiction-IsBacked_example :
    IsBacked texas.settings required.source_citations likely_required false
unfolding evaluate_jurisdiction gather resolve_effective_rules sorted_rules applies is_effective_on
    in_scope_of insert_rule no_later specificity text_leb evaluate truth_of compare_fact test_fact
    known resolve_fact present_value resolve_from test_value is_boolean traced note_comparison
    asks_presence split_path reconcile with_matches arbitrate is_peer with_unresolved
    collect_channels add_channels collect_citations add_citations status_of result_of verdict
    first_verdict check_freshness check_authority check_not_required missing_facts declared_missing
    sorted_set summarize worst_of severity caution_rank
evaluate_jurisdiction-IsBacked_example =
    evaluate_jurisdiction-IsBacked python texas (lender_rule ∷ []) lends required refl refl

evaluate_jurisdiction-conflict_example :
    (x : JurisdictionResult) × (evaluate_jurisdiction python texas
        (lender_rule ∷ exempt_rule ∷ [])
        lends
      ≡ some x)
    × IsReferred x.outcome x.requires_counsel_review
    × Among 2 x.conflicting_rule_ids
    × Among 1 x.conflicting_rule_ids
unfolding gather resolve_effective_rules sorted_rules applies is_effective_on in_scope_of
    insert_rule no_later specificity text_leb evaluate truth_of compare_fact test_fact known
    resolve_fact present_value resolve_from test_value is_boolean traced note_comparison
    asks_presence split_path
evaluate_jurisdiction-conflict_example =
    evaluate_jurisdiction-conflict python texas (lender_rule ∷ exempt_rule ∷ []) lends
      (record {
        matches = exempt_rule ∷ lender_rule ∷ [];
        unknown_matches = [];
        trace = record { facts_used = lends; missing_facts = [] };
      })
      exempt_rule lender_rule (lender_rule ∷ []) refl refl refl (inl refl) refl refl (λ e. cc)

evaluate_jurisdiction-no_match_example :
    (x : JurisdictionResult) × (evaluate_jurisdiction python texas (idle_rule ∷ []) lends ≡ some x)
    × IsReferred x.outcome x.requires_counsel_review
    × (x.source_citations ≡ [])
unfolding resolve_effective_rules sorted_rules applies is_effective_on in_scope_of insert_rule
    no_later specificity text_leb evaluate truth_of compare_fact test_fact known resolve_fact
    present_value resolve_from test_value is_boolean traced note_comparison asks_presence split_path
evaluate_jurisdiction-no_match_example =
    evaluate_jurisdiction-no_match python texas (idle_rule ∷ []) lends idle_rule [] refl refl
      (refl, tt)

resolve_effective_rules-IsRanked_example :
    IsRanked (resolve_effective_rules (lender_rule ∷ exempt_rule ∷ []) 739000 (some 48) none)
    × ((r : Rule)
        → Among r (resolve_effective_rules (lender_rule ∷ exempt_rule ∷ []) 739000 (some 48) none)
          ↔ (Among r (lender_rule ∷ exempt_rule ∷ []) × IsApplicable 739000 (some 48) none r))
resolve_effective_rules-IsRanked_example =
    resolve_effective_rules-IsRanked (lender_rule ∷ exempt_rule ∷ []) 739000 (some 48) none
