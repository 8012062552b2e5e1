-- ===== src/Licensing/Stages.antt =====
-- The stages of a compliance case: app/licensing/enums.py (CaseStage, CaseStatus) and the
-- tables of app/licensing/stages.py.
use astra_licensing_graph.Prelude.{ℕ, Bool, List, [], ◌∷◌, ◌==◌, String, any}

pub data CaseStage : Type 0 where
  due_identified case_planning vendor_outreach_pending vendor_outreach_sent vendor_questions
        internal_information_pending answers_ready answers_sent document_checklist_received
        documents_pending packet_building packet_ready_for_review packet_approved packet_sent
        form_received form_preparation form_missing_information form_ready_for_review
        signature_pending signed_form_received submission_pending submitted_to_vendor
        submitted_to_regulator vendor_validation regulator_review deficiency_received
        renewed_evidence_received inventory_update_pending completed blocked cancelled :
      CaseStage

pub data CaseStatus : Type 0 where
  «open» in_progress waiting_internal waiting_vendor waiting_signature waiting_submission
        waiting_regulator blocked completed cancelled overdue :
      CaseStatus

-- The place of a stage in the enumeration, by which two stages are compared.
unfoldable pub position : CaseStage → ℕ
position due_identified = 0
position case_planning = 1
position vendor_outreach_pending = 2
position vendor_outreach_sent = 3
position vendor_questions = 4
position internal_information_pending = 5
position answers_ready = 6
position answers_sent = 7
position document_checklist_received = 8
position documents_pending = 9
position packet_building = 10
position packet_ready_for_review = 11
position packet_approved = 12
position packet_sent = 13
position form_received = 14
position form_preparation = 15
position form_missing_information = 16
position form_ready_for_review = 17
position signature_pending = 18
position signed_form_received = 19
position submission_pending = 20
position submitted_to_vendor = 21
position submitted_to_regulator = 22
position vendor_validation = 23
position regulator_review = 24
position deficiency_received = 25
position renewed_evidence_received = 26
position inventory_update_pending = 27
position CaseStage.completed = 28
position CaseStage.blocked = 29
position CaseStage.cancelled = 30

unfoldable pub is_stage : CaseStage → CaseStage → Bool
unfolding position
is_stage s t = position s == position t

-- `stage in stages`
unfoldable pub elem : CaseStage → List CaseStage → Bool
unfolding is_stage
elem s = any (is_stage s)

-- ALLOWED_TRANSITIONS
unfoldable pub allowed_transitions : CaseStage → List CaseStage
allowed_transitions due_identified = case_planning ∷ CaseStage.blocked ∷ CaseStage.cancelled ∷ []
allowed_transitions case_planning =
    vendor_outreach_pending ∷ document_checklist_received ∷ documents_pending
    ∷ internal_information_pending ∷ form_received ∷ CaseStage.blocked ∷ CaseStage.cancelled ∷ []
allowed_transitions vendor_outreach_pending =
    vendor_outreach_sent ∷ CaseStage.blocked ∷ CaseStage.cancelled ∷ []
allowed_transitions vendor_outreach_sent =
    vendor_questions ∷ document_checklist_received ∷ form_received ∷ CaseStage.blocked
    ∷ CaseStage.cancelled ∷ []
allowed_transitions vendor_questions =
    internal_information_pending ∷ answers_ready ∷ CaseStage.blocked ∷ CaseStage.cancelled ∷ []
allowed_transitions internal_information_pending =
    answers_ready ∷ vendor_questions ∷ CaseStage.blocked ∷ CaseStage.cancelled ∷ []
allowed_transitions answers_ready =
    answers_sent ∷ internal_information_pending ∷ CaseStage.blocked ∷ CaseStage.cancelled ∷ []
allowed_transitions answers_sent =
    document_checklist_received ∷ vendor_questions ∷ form_received ∷ CaseStage.blocked
    ∷ CaseStage.cancelled ∷ []
allowed_transitions document_checklist_received =
    documents_pending ∷ packet_building ∷ CaseStage.blocked ∷ CaseStage.cancelled ∷ []
allowed_transitions documents_pending =
    packet_building ∷ CaseStage.blocked ∷ CaseStage.cancelled ∷ []
allowed_transitions packet_building =
    packet_ready_for_review ∷ documents_pending ∷ CaseStage.blocked ∷ CaseStage.cancelled ∷ []
allowed_transitions packet_ready_for_review =
    packet_approved ∷ packet_building ∷ CaseStage.blocked ∷ CaseStage.cancelled ∷ []
allowed_transitions packet_approved =
    packet_sent ∷ packet_building ∷ CaseStage.blocked ∷ CaseStage.cancelled ∷ []
allowed_transitions packet_sent =
    form_received ∷ vendor_questions ∷ vendor_validation ∷ submission_pending ∷ CaseStage.blocked
    ∷ CaseStage.cancelled ∷ []
allowed_transitions form_received = form_preparation ∷ CaseStage.blocked ∷ CaseStage.cancelled ∷ []
allowed_transitions form_preparation =
    form_missing_information ∷ form_ready_for_review ∷ CaseStage.blocked ∷ CaseStage.cancelled ∷ []
allowed_transitions form_missing_information =
    form_preparation ∷ internal_information_pending ∷ form_ready_for_review ∷ CaseStage.blocked
    ∷ CaseStage.cancelled ∷ []
allowed_transitions form_ready_for_review =
    signature_pending ∷ submission_pending ∷ form_preparation ∷ CaseStage.blocked
    ∷ CaseStage.cancelled ∷ []
allowed_transitions signature_pending =
    signed_form_received ∷ form_preparation ∷ CaseStage.blocked ∷ CaseStage.cancelled ∷ []
allowed_transitions signed_form_received =
    submission_pending ∷ CaseStage.blocked ∷ CaseStage.cancelled ∷ []
allowed_transitions submission_pending =
    submitted_to_vendor ∷ submitted_to_regulator ∷ CaseStage.blocked ∷ CaseStage.cancelled ∷ []
allowed_transitions submitted_to_vendor =
    vendor_validation ∷ submitted_to_regulator ∷ deficiency_received ∷ CaseStage.blocked
    ∷ CaseStage.cancelled ∷ []
allowed_transitions submitted_to_regulator =
    regulator_review ∷ deficiency_received ∷ renewed_evidence_received ∷ CaseStage.blocked
    ∷ CaseStage.cancelled ∷ []
allowed_transitions vendor_validation =
    submitted_to_regulator ∷ regulator_review ∷ deficiency_received ∷ form_preparation
    ∷ CaseStage.blocked ∷ CaseStage.cancelled ∷ []
allowed_transitions regulator_review =
    deficiency_received ∷ renewed_evidence_received ∷ CaseStage.blocked ∷ CaseStage.cancelled ∷ []
allowed_transitions deficiency_received =
    internal_information_pending ∷ documents_pending ∷ form_preparation ∷ packet_building
    ∷ CaseStage.blocked ∷ CaseStage.cancelled ∷ []
allowed_transitions renewed_evidence_received =
    inventory_update_pending ∷ CaseStage.blocked ∷ CaseStage.cancelled ∷ []
allowed_transitions inventory_update_pending =
    CaseStage.completed ∷ CaseStage.blocked ∷ CaseStage.cancelled ∷ []
allowed_transitions CaseStage.completed = []
allowed_transitions CaseStage.blocked =
    case_planning ∷ vendor_outreach_pending ∷ vendor_questions ∷ internal_information_pending
    ∷ documents_pending ∷ packet_building ∷ form_preparation ∷ signature_pending
    ∷ submission_pending ∷ regulator_review ∷ CaseStage.cancelled ∷ []
allowed_transitions CaseStage.cancelled = []

-- STAGE_EVIDENCE_REQUIREMENTS
unfoldable pub evidence_requirements : CaseStage → List String
evidence_requirements vendor_outreach_sent = "outreach_reference" ∷ []
evidence_requirements answers_sent = "answer_reference" ∷ []
evidence_requirements packet_approved = "document_packet_id" ∷ []
evidence_requirements packet_sent = "document_packet_id" ∷ []
evidence_requirements signed_form_received = "signed_document_id" ∷ []
evidence_requirements submitted_to_vendor = "submission_reference" ∷ []
evidence_requirements submitted_to_regulator = "submission_reference" ∷ []
evidence_requirements renewed_evidence_received = "renewed_evidence_document_id" ∷ []
evidence_requirements _ = []

-- STAGE_STATUS
unfoldable pub stage_status : CaseStage → CaseStatus
stage_status due_identified = «open»
stage_status case_planning = in_progress
stage_status vendor_outreach_pending = in_progress
stage_status vendor_outreach_sent = waiting_vendor
stage_status vendor_questions = waiting_internal
stage_status internal_information_pending = waiting_internal
stage_status answers_ready = in_progress
stage_status answers_sent = waiting_vendor
stage_status document_checklist_received = in_progress
stage_status documents_pending = waiting_internal
stage_status packet_building = in_progress
stage_status packet_ready_for_review = in_progress
stage_status packet_approved = in_progress
stage_status packet_sent = waiting_vendor
stage_status form_received = in_progress
stage_status form_preparation = in_progress
stage_status form_missing_information = waiting_internal
stage_status form_ready_for_review = in_progress
stage_status signature_pending = waiting_signature
stage_status signed_form_received = in_progress
stage_status submission_pending = waiting_submission
stage_status submitted_to_vendor = waiting_vendor
stage_status submitted_to_regulator = waiting_regulator
stage_status vendor_validation = waiting_vendor
stage_status regulator_review = waiting_regulator
stage_status deficiency_received = in_progress
stage_status renewed_evidence_received = in_progress
stage_status inventory_update_pending = in_progress
stage_status CaseStage.completed = CaseStatus.completed
stage_status CaseStage.blocked = CaseStatus.blocked
stage_status CaseStage.cancelled = CaseStatus.cancelled

-- _POST_SIGNATURE_STAGES and TERMINAL_STAGES
unfoldable pub post_signature_stages : List CaseStage
post_signature_stages = submission_pending ∷ submitted_to_vendor ∷ submitted_to_regulator ∷ []

unfoldable pub terminal_stages : List CaseStage
terminal_stages = CaseStage.completed ∷ CaseStage.cancelled ∷ []

unfoldable pub initial_stage : CaseStage
initial_stage = due_identified
