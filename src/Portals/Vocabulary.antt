-- ===== src/Portals/Vocabulary.antt =====
-- The closed vocabularies of app/portals/enums.py that the services of a portal run test or store,
-- and the sets of statuses that the services name. The columns have a check constraint for
-- these values, so a stored status is one of them.
use astra_licensing_graph.Prelude.{ℕ, Bool, true, false}

pub data AutomationLevel : Type 0 where
  prepare_only navigation_assist assisted_entry upload_assist pre_submission_assist api_assisted :
      AutomationLevel

unfoldable pub automation_level_rank : AutomationLevel → ℕ
automation_level_rank AutomationLevel.prepare_only = 0
automation_level_rank AutomationLevel.navigation_assist = 1
automation_level_rank AutomationLevel.assisted_entry = 2
automation_level_rank AutomationLevel.upload_assist = 3
automation_level_rank AutomationLevel.pre_submission_assist = 4
automation_level_rank AutomationLevel.api_assisted = 5

pub data PortalApprovalStatus : Type 0 where
  discovered review_pending approved_prepare_only approved_assisted approved_api
        automation_prohibited temporarily_suspended expired retired :
      PortalApprovalStatus

-- `status in APPROVED_PORTAL_STATUSES`
unfoldable pub in_approved_statuses : PortalApprovalStatus → Bool
in_approved_statuses PortalApprovalStatus.approved_prepare_only = true
in_approved_statuses PortalApprovalStatus.approved_assisted = true
in_approved_statuses PortalApprovalStatus.approved_api = true
in_approved_statuses _ = false

pub data PortalReviewStatus : Type 0 where
  draft approved suspended expired superseded rejected : PortalReviewStatus

unfoldable pub is_review_approved : PortalReviewStatus → Bool
is_review_approved PortalReviewStatus.approved = true
is_review_approved _ = false

pub data AuthorizationStatus : Type 0 where
  pending active suspended expired revoked : AuthorizationStatus

unfoldable pub is_authorization_active : AuthorizationStatus → Bool
is_authorization_active AuthorizationStatus.active = true
is_authorization_active _ = false

pub data AdapterStatus : Type 0 where
  draft testing active suspended retired : AdapterStatus

pub data PortalRunStatus : Type 0 where
  planned ready waiting_operator session_active waiting_login waiting_terms_acceptance waiting_mfa
        waiting_captcha entry_in_progress upload_in_progress validation_required discrepancies_found
        ready_for_pre_submission_review pre_submission_approved waiting_attestation
        waiting_signature waiting_payment waiting_final_submit submission_result_pending submitted
        submission_failed completed blocked cancelled failed_review :
      PortalRunStatus

-- `_TERMINAL_RUN_STATUSES` of the run service; `close` of the session service has the same set.
unfoldable pub in_terminal_run_statuses : PortalRunStatus → Bool
in_terminal_run_statuses PortalRunStatus.completed = true
in_terminal_run_statuses PortalRunStatus.cancelled = true
in_terminal_run_statuses PortalRunStatus.submitted = true
in_terminal_run_statuses _ = false

unfoldable pub is_submitted : PortalRunStatus → Bool
is_submitted PortalRunStatus.submitted = true
is_submitted _ = false

unfoldable pub is_blocked : PortalRunStatus → Bool
is_blocked PortalRunStatus.blocked = true
is_blocked _ = false

unfoldable pub is_waiting_operator : PortalRunStatus → Bool
is_waiting_operator PortalRunStatus.waiting_operator = true
is_waiting_operator _ = false

pub data BrowserSessionStatus : Type 0 where
  requested starting active_automation active_human_control paused expired closed failed :
      BrowserSessionStatus

-- `status in ACTIVE_BROWSER_SESSION_STATUSES`
unfoldable pub in_active_session_statuses : BrowserSessionStatus → Bool
in_active_session_statuses BrowserSessionStatus.expired = false
in_active_session_statuses BrowserSessionStatus.closed = false
in_active_session_statuses BrowserSessionStatus.failed = false
in_active_session_statuses _ = true

unfoldable pub is_active_automation : BrowserSessionStatus → Bool
is_active_automation BrowserSessionStatus.active_automation = true
is_active_automation _ = false

unfoldable pub is_human_control : BrowserSessionStatus → Bool
is_human_control BrowserSessionStatus.active_human_control = true
is_human_control _ = false

pub data PortalStepType : Type 0 where
  navigate login_handoff terms_handoff mfa_handoff captcha_handoff field_entry document_upload
        validation pre_submission_capture attestation_handoff signature_handoff payment_handoff
        final_submit_handoff submission_result_capture :
      PortalStepType

unfoldable pub is_validation_step : PortalStepType → Bool
is_validation_step PortalStepType.validation = true
is_validation_step _ = false

pub data PortalFieldStatus : Type 0 where
  pending auto_entered human_entered human_only verified discrepancy rejected not_applicable
        blocked :
      PortalFieldStatus

unfoldable pub is_discrepancy : PortalFieldStatus → Bool
is_discrepancy PortalFieldStatus.discrepancy = true
is_discrepancy _ = false

pub data PortalDocumentStatus : Type 0 where
  selected validated upload_pending uploading uploaded verified failed_retryable failed_review
        removed :
      PortalDocumentStatus

unfoldable pub is_verified : PortalDocumentStatus → Bool
is_verified PortalDocumentStatus.verified = true
is_verified _ = false

pub data HandoffType : Type 0 where
  login terms_acceptance mfa captcha sensitive_field attestation signature payment final_submit
        unexpected_page portal_error :
      HandoffType

pub data HandoffStatus : Type 0 where
  requested accepted active completed declined expired failed : HandoffStatus

-- REQUESTED, ACCEPTED or ACTIVE.
unfoldable pub is_open_handoff : HandoffStatus → Bool
is_open_handoff HandoffStatus.requested = true
is_open_handoff HandoffStatus.accepted = true
is_open_handoff HandoffStatus.active = true
is_open_handoff _ = false

unfoldable pub is_requested : HandoffStatus → Bool
is_requested HandoffStatus.requested = true
is_requested _ = false

unfoldable pub is_active : HandoffStatus → Bool
is_active HandoffStatus.active = true
is_active _ = false

unfoldable pub is_completed_handoff : HandoffStatus → Bool
is_completed_handoff HandoffStatus.completed = true
is_completed_handoff _ = false

pub data SnapshotStatus : Type 0 where
  draft discrepancies_found ready_for_review approved rejected superseded : SnapshotStatus

unfoldable pub is_approved : SnapshotStatus → Bool
is_approved SnapshotStatus.approved = true
is_approved _ = false

unfoldable pub is_ready_for_review : SnapshotStatus → Bool
is_ready_for_review SnapshotStatus.ready_for_review = true
is_ready_for_review _ = false

unfoldable pub is_rejectable : SnapshotStatus → Bool
is_rejectable SnapshotStatus.ready_for_review = true
is_rejectable SnapshotStatus.discrepancies_found = true
is_rejectable _ = false

pub data AttestationStatus : Type 0 where
  not_required required waiting completed_by_human declined failed : AttestationStatus

unfoldable pub is_waiting : AttestationStatus → Bool
is_waiting AttestationStatus.waiting = true
is_waiting _ = false

-- NOT_REQUIRED or COMPLETED_BY_HUMAN.
unfoldable pub is_attested : AttestationStatus → Bool
is_attested AttestationStatus.not_required = true
is_attested AttestationStatus.completed_by_human = true
is_attested _ = false

pub data PaymentStatus : Type 0 where
  not_required estimated review_required approved waiting_human_payment paid_externally failed
        cancelled :
      PaymentStatus

unfoldable pub is_review_required : PaymentStatus → Bool
is_review_required PaymentStatus.review_required = true
is_review_required _ = false

unfoldable pub is_payment_approved : PaymentStatus → Bool
is_payment_approved PaymentStatus.approved = true
is_payment_approved _ = false

-- NOT_REQUIRED or PAID_EXTERNALLY.
unfoldable pub is_settled : PaymentStatus → Bool
is_settled PaymentStatus.not_required = true
is_settled PaymentStatus.paid_externally = true
is_settled _ = false
