-- ===== src/Licensing/Permitted.antt =====
-- `validate_transition` against a statement of its control rules without order or early returns.
use astra_licensing_graph.Prelude.{
  ◌≡◌, refl, ap, ◌↔◌, Bool, true, not, ◌||◌, none, some, List, [], ◌∷◌, String, String,
  if◌then◌else◌, arith, All, select, has_field, optional_true,
}
use astra_licensing_graph.Licensing.Stages.{
  CaseStage, is_stage, elem, allowed_transitions, evidence_requirements, stage_status,
  post_signature_stages, terminal_stages,
}
use astra_licensing_graph.Licensing.Every.{every_pair}
use astra_licensing_graph.Licensing.Transition.{
  StageName, known, Facts, payload_of, check_controls, validate_transition,
}

-- The rules, each on its own.
pub record Permitted (from to : CaseStage) (facts : Facts) : Type 0 where
  pub edge : elem to (allowed_transitions from) ≡ true
  pub evidenced :
      All (λ key. has_field key (payload_of facts.evidence) ≡ true) (evidence_requirements to)
  pub signed :
      facts.signature_required ≡ true
      → elem to post_signature_stages ≡ true
      → facts.signature_recorded ≡ true
  pub closable :
      is_stage to CaseStage.completed ≡ true
      → (facts.has_renewed_evidence || optional_true facts.close_reason) ≡ true

edge-not_same :
    (from to : CaseStage)
    → (not (elem to (allowed_transitions from)) || not (is_stage from to)) ≡ true
unfolding elem allowed_transitions is_stage
edge-not_same = every_pair (λ s t. not (elem t (allowed_transitions s)) || not (is_stage s t)) refl

edge-not_terminal :
    (from to : CaseStage)
    → (not (elem to (allowed_transitions from)) || not (elem from terminal_stages)) ≡ true
unfolding elem allowed_transitions is_stage terminal_stages
edge-not_terminal =
    every_pair (λ s t. not (elem t (allowed_transitions s)) || not (elem s terminal_stages)) refl

missing_none :
    (p : String → Bool) (keys : List String)
    → (select (λ key. not (p key)) keys ≡ []) ↔ All (λ key. p key ≡ true) keys
missing_none p [] = ((λ _. tt), (λ _. refl))
missing_none p (k ∷ ks) = ground (arith, missing_none p ks)

check_controls-allowed :
    (to : CaseStage) (facts : Facts)
    → ((check_controls to facts).allowed ≡ true) ↔ (
        All (λ key. has_field key (payload_of facts.evidence) ≡ true) (evidence_requirements to)
        × (facts.signature_required ≡ true
            → elem to post_signature_stages ≡ true
            → facts.signature_recorded ≡ true)
        × (is_stage to CaseStage.completed ≡ true
            → (facts.has_renewed_evidence || optional_true facts.close_reason) ≡ true))
unfolding check_controls
check_controls-allowed to facts = ground (
  arith,
  missing_none (λ key. has_field key (payload_of facts.evidence)) (evidence_requirements to),
)

-- The guards for the same stage and for terminal stages refuse nothing that the matrix allows.
validate_transition-controls :
    (from to : CaseStage) (facts : Facts)
    → elem to (allowed_transitions from) ≡ true
    → validate_transition (known from) (known to) facts ≡ check_controls to facts
unfolding validate_transition
validate_transition-controls from to facts e =
    ground (arith, edge-not_same from to, edge-not_terminal from to)

validate_transition-edge :
    (from to : CaseStage) (facts : Facts)
    → (validate_transition (known from) (known to) facts).allowed ≡ true
    → elem to (allowed_transitions from) ≡ true
unfolding validate_transition
validate_transition-edge from to facts h = ground arith

-- A transition between two stages is allowed exactly when the matrix has the edge, every evidence
-- key of the new stage is present and true, a required signature is recorded before a submission
-- stage, and completion has renewed evidence or a close reason.
pub validate_transition-allowed_iff :
    (from to : CaseStage) (facts : Facts)
    → ((validate_transition (known from) (known to) facts).allowed ≡ true) ↔ Permitted from to facts
validate_transition-allowed_iff from to facts = (
  λ h.
      let edge = validate_transition-edge from to facts h in
      let controls =
        (check_controls-allowed to facts).0
          (rw (validate_transition-controls from to facts edge) at h) in
      record { edge = edge; evidenced = controls.0; signed = controls.1; closable = controls.2 },
  λ p.
      rw (validate_transition-controls from to facts p.edge)
        ((check_controls-allowed to facts).1 (p.evidenced, p.signed, p.closable)),
)

-- An allowed transition names the status of the new stage, and a refused one names no status.
pub validate_transition-status :
    (from : StageName) (to : CaseStage) (facts : Facts)
    → let check = validate_transition from (known to) facts in
      check.resulting_status ≡ (if check.allowed then some (stage_status to) else none)
unfolding validate_transition check_controls
validate_transition-status from to facts = ground arith

pub allowed-status :
    (from name : StageName) (to : CaseStage) (facts : Facts)
    → name ≡ known to
    → (validate_transition from name facts).allowed ≡ true
    → (validate_transition from name facts).resulting_status ≡ some (stage_status to)
allowed-status from name to facts e h =
    let lifted : (validate_transition from (known to) facts).allowed ≡ true = cc in
    let status = validate_transition-status from to facts in
    cc (status, ap (λ b. if b then some (stage_status to) else none) lifted)
