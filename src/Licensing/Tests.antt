-- ===== src/Licensing/Tests.antt =====
-- A renewal from the opening of its case to its completion, and the theorems at it.
use astra_licensing_graph.Prelude.{
  ◌≡◌, refl, ◌↔◌, true, none, some, List, [], ◌∷◌, Fields, end, field, text, All, has_field, arith,
}
use astra_licensing_graph.Licensing.Stages.{
  CaseStage, elem, is_stage, initial_stage, stage_status, allowed_transitions,
  evidence_requirements, post_signature_stages, terminal_stages,
}
use astra_licensing_graph.Licensing.Transition.{known, Facts, check_controls, validate_transition}
use astra_licensing_graph.Licensing.Permitted.{Permitted, validate_transition-allowed_iff}
use astra_licensing_graph.Licensing.CaseRows.{
  ComplianceCase, FormInstance, Store, Request, ok, uuid, Uuid, elsewhere,
}
use astra_licensing_graph.Licensing.CaseService.{
  case_facts, fill_payload, commit_move, move_case, stage_event, new_case, open_case, transition,
  transition_case, signature_recorded,
}
use astra_licensing_graph.Licensing.Reached.{IsHistory, HasRenewal, Reach, here, next, move, edit}
use astra_licensing_graph.Licensing.Control.{
  Reach-consistent, completed-HasRenewal, transition-signed,
}
use astra_licensing_graph.Licensing.Routes.{Route, live-Route, detour-regulator_review}

abbrev licence_id : Uuid
licence_id = uuid "7" "c0ffee"

abbrev papers : Fields
papers = field "outreach_reference" (text "m-1") (
    field "answer_reference" (text "m-2") (
      field "document_packet_id" (text "p-1") (
        field "signed_document_id" (text "d-1") (
          field "submission_reference" (text "r-1")
            (field "renewed_evidence_document_id" (text "d-2") end)))))

abbrev ask : CaseStage → Request
ask to = record {
  to_stage = known to;
  actor_id = "ana";
  reason = none;
  evidence = some papers;
  close_reason = none;
  now = 100;
}

abbrev signed_form : FormInstance
signed_form = record { signature_required = true; signed_document_id = some licence_id }

abbrev empty : Store
empty = record {
  case = none;
  instances = [];
  packets = [];
  events = [];
  audit = [];
  obligation = some (elsewhere "ACTIVE");
}

abbrev opened : Store
unfolding new_case
opened = new_case empty licence_id "ana" 7

abbrev with_form : Store → Store
with_form s = record s { instances = signed_form ∷ []; packets = [] }

abbrev after : Store → CaseStage → Store
after s to = elim s.case [
  | none ↦ s
  | some case ↦
      commit_move s case (ask to)
        (validate_transition case.current_stage (known to) (case_facts s case (ask to)))
]

abbrev route : List CaseStage
route =
    CaseStage.case_planning ∷ CaseStage.form_received ∷ CaseStage.form_preparation
    ∷ CaseStage.form_ready_for_review ∷ CaseStage.signature_pending ∷ CaseStage.signed_form_received
    ∷ CaseStage.submission_pending ∷ CaseStage.submitted_to_regulator
    ∷ CaseStage.renewed_evidence_received ∷ CaseStage.inventory_update_pending ∷ CaseStage.completed
    ∷ []

abbrev run : Store → List CaseStage → Store
run s [] = s
run s (to ∷ tos) = run (after s to) tos

-- What the tests compute with.
program : Unit {0}
unfolding transition transition_case validate_transition check_controls commit_move move_case
    stage_event case_facts fill_payload new_case open_case elem is_stage initial_stage stage_status
    allowed_transitions evidence_requirements post_signature_stages terminal_stages
program = tt

abbrev Works : Store → List CaseStage → Type 0
Works s [] = Unit
Works s (to ∷ tos) = (transition s (ask to) ≡ ok (after s to)) × Works (after s to) tos

run-Reach : (s₀ s : Store) (tos : List CaseStage) → Works s tos → Reach s₀ s → Reach s₀ (run s tos)
run-Reach s₀ s [] h r = r
run-Reach s₀ s (to ∷ tos) h r = run-Reach s₀ (after s to) tos h.1 (next r (move (ask to) h.0))

abbrev start : Store
start = with_form opened

abbrev finished : Store
finished = run start route

route-Works : Works start route
unfolding program
route-Works =
    (refl, (refl, (refl, (refl, (refl, (refl, (refl, (refl, (refl, (refl, (refl, tt)))))))))))

finished-Reach : Reach opened finished
finished-Reach =
    run-Reach opened start route route-Works (next here (edit (signed_form ∷ []) [] refl))

opened_ok : open_case empty licence_id "ana" 7 ≡ ok opened
unfolding program
opened_ok = refl

abbrev last_case : ComplianceCase
last_case = record {
  current_stage = known CaseStage.completed;
  status = stage_status CaseStage.completed;
  stage_entered_at = some 100;
  created_at = some 7;
  close_reason = none;
  blocked_reason = none;
  completed_at = some 100;
}

Reach-consistent_example :
    (case : ComplianceCase) × (stage : CaseStage) × (finished.case ≡ some case)
    × (case.current_stage ≡ known stage)
    × (case.status ≡ stage_status stage)
    × IsHistory stage finished.events
Reach-consistent_example =
    Reach-consistent empty opened finished licence_id "ana" 7 refl opened_ok finished-Reach

finished_case : finished.case ≡ some last_case
unfolding program
finished_case = refl

completed-HasRenewal_example : HasRenewal finished.events
completed-HasRenewal_example =
    completed-HasRenewal empty opened finished licence_id "ana" 7 refl opened_ok finished-Reach
      last_case finished_case refl

abbrev at_signature : Store
at_signature = run start (
    CaseStage.case_planning ∷ CaseStage.form_received ∷ CaseStage.form_preparation
    ∷ CaseStage.form_ready_for_review ∷ [])

transition-signed_example : signature_recorded at_signature.instances ≡ true
unfolding program
transition-signed_example =
    transition-signed at_signature (after at_signature CaseStage.submission_pending)
      (ask CaseStage.submission_pending) CaseStage.submission_pending refl refl refl refl

abbrev full_facts : Facts
full_facts = record {
  evidence = some papers;
  signature_required = true;
  signature_recorded = true;
  has_renewed_evidence = true;
  close_reason = none;
}

papers_suffice :
    (s : CaseStage) → All (λ key. has_field key papers ≡ true) (evidence_requirements s)
unfolding program
papers_suffice CaseStage.due_identified = tt
papers_suffice _ = ground arith

live-Route_example : Route full_facts CaseStage.deficiency_received
unfolding program
live-Route_example =
    live-Route full_facts papers_suffice refl refl CaseStage.deficiency_received refl

validate_transition-allowed_iff_example :
    ((validate_transition
        (known CaseStage.packet_sent)
        (known CaseStage.submission_pending)
        full_facts).allowed
      ≡ true)
    ↔ Permitted CaseStage.packet_sent CaseStage.submission_pending full_facts
validate_transition-allowed_iff_example =
    validate_transition-allowed_iff CaseStage.packet_sent CaseStage.submission_pending full_facts

-- A case whose form needs a signature that nobody gave.
abbrev unsigned : Store
unsigned = record opened {
  instances = (record { signature_required = true; signed_document_id = none }) ∷ [];
  packets = [];
}

abbrev first_case : ComplianceCase
first_case = record {
  current_stage = known initial_stage;
  status = stage_status initial_stage;
  stage_entered_at = some 7;
  created_at = some 7;
  close_reason = none;
  blocked_reason = none;
  completed_at = none;
}

detour-regulator_review_example :
    (s₁ : Store) × (s₂ : Store) × (case₂ : ComplianceCase) × (transition unsigned
        (ask CaseStage.blocked)
      ≡ ok s₁)
    × (transition s₁ (ask CaseStage.regulator_review) ≡ ok s₂)
    × (s₂.case ≡ some case₂)
    × (case₂.current_stage ≡ known CaseStage.regulator_review)
    × (s₂.instances ≡ unsigned.instances)
unfolding program
detour-regulator_review_example =
    detour-regulator_review unsigned first_case CaseStage.due_identified (ask CaseStage.blocked)
      (ask CaseStage.regulator_review) refl refl refl refl refl refl
