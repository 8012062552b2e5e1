-- ===== src/Requirements/Evaluator.antt =====
-- The checks on the sources and the result of `evaluate_jurisdiction` in
-- app/requirements/evaluator.py. The texts of the result (explanation, reason for counsel, payload of
-- a citation) are left out.
use astra_licensing_graph.Prelude.{
  ℕ, Bool, true, false, not, ◌&&◌, ◌||◌, Option, none, some, List, [], ◌∷◌, ◌++◌, map, String,
  Fields, end, field, str_eq, if◌then◌else◌, any, select,
}
use astra_licensing_graph.Requirements.Comparisons.{Python}
use astra_licensing_graph.Requirements.Evaluation.{EvaluationTrace}
use astra_licensing_graph.Requirements.Taxonomy.{
  RequirementOutcome, likely_required, possibly_required, counsel_review, out_of_scope,
  same_outcome, SourceFreshnessStatus, stale, no_source, summarize,
}
use astra_licensing_graph.Requirements.Rules.{Rule, text_leb, resolve_effective_rules}
use astra_licensing_graph.Requirements.Reconcile.{
  Note, downgraded_by_source_freshness, no_authoritative_source, Gathered, gather, Reconciled,
  reconcile, is_not_required,
}
use astra_licensing_graph.Requirements.Sources.{
  Cited, Freshness, collect_channels, collect_citations, from_authority,
}

pub record EvaluationSettings : Type 0 where
  pub require_human_review : Bool
  pub require_counsel_for_not_required : Bool
  pub escalate_non_authoritative_sources : Bool

pub record JurisdictionResult : Type 0 where
  pub jurisdiction_id : ℕ
  pub license_type_id : Option ℕ
  pub outcome : RequirementOutcome
  pub filing_channels : List String
  pub facts_used : Fields
  pub missing_facts : List String
  pub matched_rule_ids : List ℕ
  pub conflicting_rule_ids : List ℕ
  pub source_citations : List Cited
  pub source_freshness_status : SourceFreshnessStatus
  pub requires_human_review : Bool
  pub requires_counsel_review : Bool
  pub notes : List Note

-- The outcome with the review flag and the notes, as the checks on the sources change them.
pub record Verdict : Type 0 where
  pub outcome : RequirementOutcome
  pub requires_counsel : Bool
  pub notes : List Note

abbrev pub is_confident : RequirementOutcome → Bool
is_confident o = same_outcome o likely_required || is_not_required o

abbrev pub is_unsupported : SourceFreshnessStatus → Bool
is_unsupported stale = true
is_unsupported no_source = true
is_unsupported _ = false

unfoldable pub check_freshness : SourceFreshnessStatus → Verdict → Verdict
check_freshness s v =
    if is_unsupported s && is_confident v.outcome
    then record {
      outcome =
          if same_outcome v.outcome likely_required then possibly_required else counsel_review;
      requires_counsel = true;
      notes = v.notes ++ downgraded_by_source_freshness ∷ [];
    }
    else v

abbrev pub is_nonempty {ℓ} : {A : Type ℓ} → List A → Bool
is_nonempty [] = false
is_nonempty (x ∷ xs) = true

unfoldable pub check_authority : EvaluationSettings → List Rule → List Cited → Verdict → Verdict
check_authority policy chosen citations v =
    if policy.escalate_non_authoritative_sources
      && is_nonempty chosen
      && is_nonempty citations
      && not (any from_authority citations)
      && is_confident v.outcome
    then record {
      outcome = possibly_required;
      requires_counsel = true;
      notes = v.notes ++ no_authoritative_source ∷ [];
    }
    else v

unfoldable pub check_not_required : EvaluationSettings → Verdict → Verdict
check_not_required policy v =
    if policy.require_counsel_for_not_required && is_not_required v.outcome
    then record v { requires_counsel = true }
    else v

unfoldable pub first_verdict : Reconciled → Verdict
first_verdict r = record {
  outcome = r.outcome;
  requires_counsel =
      any (λ (m : Rule). m.requires_counsel_review) r.chosen
      || same_outcome r.outcome counsel_review;
  notes = r.notes;
}

unfoldable pub verdict : EvaluationSettings → Reconciled → List Cited → Verdict
verdict policy r citations = check_not_required policy (
    check_authority policy r.chosen citations
      (check_freshness (summarize (map (λ (c : Cited). c.status) citations)) (first_verdict r)))

-- `sorted(set(...))` of texts.
unfoldable pub insert_text : String → List String → List String
insert_text s [] = s ∷ []
insert_text s (t ∷ ts) =
    let rest = insert_text s ts in
    if str_eq s t then t ∷ ts else if text_leb s t then s ∷ t ∷ ts else t ∷ rest

unfoldable pub sorted_set : List String → List String
sorted_set [] = []
sorted_set (s ∷ ss) = insert_text s (sorted_set ss)

abbrev pub is_used : Fields → String → Bool
is_used end path = false
is_used (field k v fs) path = str_eq k path || is_used fs path

unfoldable pub declared_missing : List Rule → Fields → List String
declared_missing [] used = []
declared_missing (r ∷ rs) used =
    select (λ path. not (is_used used path)) r.required_facts ++ declared_missing rs used

unfoldable pub missing_facts : List Rule → EvaluationTrace → List String
missing_facts effective t = sorted_set (t.missing_facts ++ declared_missing effective t.facts_used)

abbrev pub empty_trace : EvaluationTrace
empty_trace = record { facts_used = end; missing_facts = [] }

-- What the caller passes besides the rules and the facts.
pub record Query : Type 0 where
  pub jurisdiction_id : ℕ
  pub license_type_id : Option ℕ
  pub when : ℕ
  pub freshness_by_snapshot : Freshness
  pub settings : EvaluationSettings
  pub in_scope : Bool

abbrev pub effective_rules : Query → List Rule → List Rule
effective_rules q rules =
    resolve_effective_rules rules q.when (some q.jurisdiction_id) q.license_type_id

unfoldable pub outside : Query → JurisdictionResult
outside q = record {
  jurisdiction_id = q.jurisdiction_id;
  license_type_id = q.license_type_id;
  outcome = out_of_scope;
  filing_channels = [];
  facts_used = end;
  missing_facts = [];
  matched_rule_ids = [];
  conflicting_rule_ids = [];
  source_citations = [];
  source_freshness_status = no_source;
  requires_human_review = q.settings.require_human_review;
  requires_counsel_review = false;
  notes = [];
}

unfoldable pub result_of : Query → List Rule → Gathered → JurisdictionResult
result_of q effective g =
    let r = reconcile effective g in
    let citations = collect_citations q.freshness_by_snapshot [] r.chosen in
    let v = verdict q.settings r citations in
    record {
      jurisdiction_id = q.jurisdiction_id;
      license_type_id = q.license_type_id;
      outcome = v.outcome;
      filing_channels = collect_channels [] r.chosen;
      facts_used = g.trace.facts_used;
      missing_facts = missing_facts effective g.trace;
      matched_rule_ids = map (λ (m : Rule). m.id) r.chosen;
      conflicting_rule_ids = r.conflicting;
      source_citations = citations;
      source_freshness_status = summarize (map (λ (c : Cited). c.status) citations);
      requires_human_review = q.settings.require_human_review || v.requires_counsel;
      requires_counsel_review = v.requires_counsel;
      notes = v.notes;
    }

unfoldable pub evaluate_jurisdiction :
    Python → Query → List Rule → Fields → Option JurisdictionResult
evaluate_jurisdiction py q rules facts =
    if q.in_scope
    then elim (gather py (effective_rules q rules) facts empty_trace) [
      | none ↦ none
      | some g ↦ some (result_of q (effective_rules q rules) g)
    ]
    else some (outside q)
