-- ===== src/Licensing/Transition.antt =====
-- `validate_transition` of app/licensing/stages.py. A stage arrives as a `str`:
-- it is a value of the enumeration or some other text. A refusal keeps its reason as data, with
-- what the message names.
use astra_licensing_graph.Prelude.{
  Bool, true, false, not, ◌&&◌, Option, none, some, List, [], ◌∷◌, String, Fields, end,
  if◌then◌else◌, select, has_field, optional_true, str_eq,
}
use astra_licensing_graph.Licensing.Stages.{
  CaseStage, CaseStatus, is_stage, elem, allowed_transitions, evidence_requirements, stage_status,
  post_signature_stages, terminal_stages,
}

pub data StageName : Type 0 where
  known : CaseStage → StageName
  other : String → StageName

pub data Reason : Type 0 where
  no_reason already_in_stage unsigned_form no_close_evidence : Reason
  terminal_stage unknown_stage : StageName → Reason
  not_allowed : StageName → StageName → Reason
  missing_keys : List String → Reason

pub record TransitionCheck : Type 0 where
  pub allowed : Bool
  pub reason : Reason
  pub missing_evidence : List String
  pub resulting_status : Option CaseStatus

-- What `validate_transition` is told of the case, by keyword.
pub record Facts : Type 0 where
  pub evidence : Option Fields
  pub signature_required : Bool
  pub signature_recorded : Bool
  pub has_renewed_evidence : Bool
  pub close_reason : Option String

abbrev pub refused : Reason → TransitionCheck
refused r = record { allowed = false; reason = r; missing_evidence = []; resulting_status = none }

abbrev pub same_name : StageName → StageName → Bool
same_name (known s) (known t) = is_stage s t
same_name (other a) (other b) = str_eq a b
same_name _ _ = false

-- `from_stage in TERMINAL_STAGES`
abbrev pub in_terminal : StageName → Bool
in_terminal (known s) = elem s terminal_stages
in_terminal (other a) = false

-- `ALLOWED_TRANSITIONS.get(from_stage, frozenset())`
abbrev pub transitions_from : StageName → List CaseStage
transitions_from (known s) = allowed_transitions s
transitions_from (other a) = []

-- `evidence or {}`
abbrev pub payload_of : Option Fields → Fields
payload_of none = end
payload_of (some fs) = fs

abbrev pub missing_for : CaseStage → Fields → List String
missing_for to payload = select (λ key. not (has_field key payload)) (evidence_requirements to)

-- The control points that follow the matrix.
unfoldable pub check_controls : CaseStage → Facts → TransitionCheck
check_controls to facts = elim (missing_for to (payload_of facts.evidence)) [
  | key ∷ keys ↦ record {
    allowed = false;
    reason = missing_keys (key ∷ keys);
    missing_evidence = key ∷ keys;
    resulting_status = none;
  }
  | [] ↦
      if facts.signature_required && not facts.signature_recorded && elem to post_signature_stages
      then refused unsigned_form
      else if is_stage to CaseStage.completed
          && not facts.has_renewed_evidence
          && not (optional_true facts.close_reason)
      then refused no_close_evidence
      else record {
        allowed = true;
        reason = no_reason;
        missing_evidence = [];
        resulting_status = some (stage_status to);
      }
]

unfoldable pub validate_transition : StageName → StageName → Facts → TransitionCheck
validate_transition from to facts =
    if same_name from to
    then refused already_in_stage
    else if in_terminal from
    then refused (terminal_stage from)
    else elim to [
      | other a ↦ refused (unknown_stage (other a))
      | known t ↦
          if not (elem t (transitions_from from))
          then refused (not_allowed from (known t))
          else check_controls t facts
    ]
