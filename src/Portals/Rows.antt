-- ===== src/Portals/Rows.antt =====
-- The rows of one portal run, after app/models/portal.py, with what the services read of other
-- tables. Left out are the columns that no method tests or hands on, such as error texts and most
-- timestamps. Ids are numbers. `snapshots`, `steps` and `handoffs` have the newest row first, and
-- of the documents that evidence may name only the id and the test of the service are kept.
-- A manifest keeps the rows of fields and documents whole, where the source takes some columns of
-- them. `evidence` has the newest row first.
use astra_licensing_graph.Prelude.{ℕ, Bool, Option, List, String, Fields}
use astra_licensing_graph.Licensing.CaseRows.{Store as CaseStore, Uuid}
use astra_licensing_graph.Portals.Vocabulary.{
  AdapterStatus, AttestationStatus, AuthorizationStatus, AutomationLevel, BrowserSessionStatus,
  HandoffStatus, HandoffType, PaymentStatus, PortalApprovalStatus, PortalDocumentStatus,
  PortalFieldStatus, PortalReviewStatus, PortalRunStatus, PortalStepType, SnapshotStatus,
}

pub record PortalDefinition : Type 0 where
  pub status : PortalApprovalStatus
  pub approved_automation_level : AutomationLevel
  pub portal_type : String
  pub terms_review_expires_at : Option ℕ

pub record PortalReviewVersion : Type 0 where
  pub status : PortalReviewStatus
  pub allowed_actions : Fields
  pub prohibited_actions : Fields
  pub approved_filing_types : List String
  pub approved_entity_ids : List ℕ
  pub valid_from : Option ℕ
  pub valid_to : Option ℕ

pub record PortalAdapterVersion : Type 0 where
  pub status : AdapterStatus
  pub supported_routes : Fields

pub record PortalUserAuthorization : Type 0 where
  pub user_principal_id : ℕ
  pub authorization_status : AuthorizationStatus
  pub authorized_filing_types : List String
  pub authorized_entity_ids : List ℕ
  pub expires_at : Option ℕ

pub record UserPrincipal : Type 0 where
  pub id : ℕ
  pub tenant_id : String
  pub object_id : String

pub record PortalRun : Type 0 where
  pub id : Uuid
  pub portal_definition_id : ℕ
  pub portal_review_version_id : ℕ
  pub portal_adapter_version_id : Option ℕ
  pub compliance_case_id : ℕ
  pub legal_entity_id : ℕ
  pub form_instance_id : Option ℕ
  pub document_packet_id : Option ℕ
  pub filing_type : String
  pub automation_level : AutomationLevel
  pub status : PortalRunStatus
  pub current_stage : PortalRunStatus
  pub assigned_operator_id : Option ℕ
  pub assigned_signatory_id : Option ℕ
  pub assigned_payment_approver_id : Option ℕ
  pub started_at : Option ℕ
  pub submitted_at : Option ℕ
  pub completed_at : Option ℕ

pub record BrowserSession : Type 0 where
  pub id : ℕ
  pub operator_user_id : ℕ
  pub session_status : BrowserSessionStatus
  pub expires_at : ℕ

-- A message that `capture_validation` is given: a key that is missing is `none`.
pub record RawMessage : Type 0 where
  pub code : Option String
  pub category : Option String
  pub message : String
  pub blocking : Option Bool
  pub field_key : Option String

pub record PortalMessage : Type 0 where
  pub code : String
  pub category : String
  pub message : String
  pub blocking : Bool
  pub field_key : Option String

pub record PortalRunStep : Type 0 where
  pub sequence_number : ℕ
  pub step_type : PortalStepType
  pub page_category : Option String
  pub messages : List PortalMessage

-- A field of the run with what its mapping says, if it has one.
pub record PortalFieldMapping : Type 0 where
  pub required : Bool
  pub human_only : Bool

pub record PortalRunField : Type 0 where
  pub id : ℕ
  pub portal_field_key : String
  pub mapping : Option PortalFieldMapping
  pub approved_value_fingerprint : Option String
  pub entered_value_fingerprint : Option String
  pub status : PortalFieldStatus
  pub discrepancy_code : Option String

pub record PortalRunDocument : Type 0 where
  pub id : ℕ
  pub document_id : ℕ
  pub document_version_id : ℕ
  pub expected_filename : String
  pub expected_sha256 : String
  pub portal_display_name : Option String
  pub portal_size_bytes : Option ℕ
  pub status : PortalDocumentStatus

-- What `_validate_document` reads of a document and of one of its versions. The statuses are by
-- whether they are APPROVED, ACTIVE and AVAILABLE; `is_current` is whether the version is the
-- document's current one.
pub record DocumentVersion : Type 0 where
  pub document_id : ℕ
  pub version_id : ℕ
  pub is_approved_document : Bool
  pub is_active_document : Bool
  pub is_current : Bool
  pub is_stored : Bool
  pub version_sha256 : String
  pub document_sha256 : String
  pub expiry_date : Option ℕ
  pub mime_type : String
  pub size_bytes : ℕ

pub data Discrepancy : Type 0 where
  field_discrepancy : (code field_key : String) → Discrepancy
  document_missing : ℕ → Discrepancy
  portal_validation_error : String → Discrepancy

-- What `create_snapshot` records and hashes.
pub record Manifest : Type 0 where
  pub form_instance_version : Option ℕ
  pub field_manifest : List PortalRunField
  pub document_manifest : List PortalRunDocument
  pub portal_validation_messages : List PortalMessage
  pub discrepancy_report : List Discrepancy

pub record SnapshotPayload : Type 0 where
  pub portal_definition_id : ℕ
  pub portal_review_version_id : ℕ
  pub portal_adapter_version_id : Option ℕ
  pub legal_entity_id : ℕ
  pub compliance_case_id : ℕ
  pub filing_type : String
  pub manifest : Manifest

pub record PreSubmissionSnapshot : Type 0 where
  pub id : ℕ
  pub version : ℕ
  pub manifest : Manifest
  pub snapshot_sha256 : String
  pub status : SnapshotStatus
  pub created_by_actor : String
  pub reviewed_by_actor : Option String

pub record HumanHandoff : Type 0 where
  pub id : ℕ
  pub handoff_type : HandoffType
  pub status : HandoffStatus
  pub browser_session_id : Option ℕ
  pub requested_from_user_id : Option ℕ
  pub expires_at : Option ℕ
  pub result : Option String

pub record PortalAttestationRecord : Type 0 where
  pub id : ℕ
  pub attestation_type : String
  pub required_actor_id : Option ℕ
  pub status : AttestationStatus
  pub attestation_text_fingerprint : Option String
  pub completed_by_actor : Option String
  pub evidence_reference : Option String

pub record PortalPaymentRecord : Type 0 where
  pub status : PaymentStatus
  pub expected_fee_amount : Option ℕ
  pub currency : Option String
  pub portal_fee_summary : Option String
  pub approved_by_actor : Option String
  pub paid_by_actor : Option String
  pub receipt_document_id : Option ℕ

-- What the services read of the form instance that the run pins.
pub record GovernedForm : Type 0 where
  pub version : ℕ
  pub signature_required : Bool
  pub is_signed : Bool
  pub signed_document_id : Option ℕ

-- A document: approved, active and with a current version; and linked to the run's legal entity.
pub record EvidenceDocument : Type 0 where
  pub id : ℕ
  pub is_available : Bool
  pub is_linked : Bool

pub record SubmissionEvidence : Type 0 where
  pub id : Uuid
  pub confirmation_number : Option String
  pub filing_reference : Option String
  pub source_document_id : Option ℕ
  pub evidence_sha256 : Option String
  pub submitted_by_actor : String
  pub submitted_at : Option ℕ

pub data PortalJobStatus : Type 0 where
  pending running waiting_human completed failed_retryable failed_review cancelled : PortalJobStatus

-- The idempotency keys, by what their texts name.
pub data JobKey : Type 0 where
  navigate : (session : ℕ) (route : String) (request : ℕ) → JobKey
  validation resume field_entry upload : (fresh : ℕ) → JobKey
  close_session owner_change session_start : (session : ℕ) → JobKey
  handoff_verify : (handoff fresh : ℕ) → JobKey
  submission_capture : (handoff : ℕ) → JobKey

pub record PortalJob : Type 0 where
  pub key : JobKey
  pub status : PortalJobStatus
  pub browser_session_id : ℕ
  pub max_attempts : ℕ

pub data AuditRow : Type 0 where
  portal_run_updated portal_run_started portal_run_paused portal_run_cancelled : AuditRow
  field_entry_queued : AuditRow
  document_upload_queued : ℕ → AuditRow
  snapshot_created snapshot_approved snapshot_rejected snapshot_invalidated : ℕ → AuditRow
  browser_session_requested browser_control_taken : ℕ → AuditRow
  handoff_requested handoff_accepted handoff_completion_requested : ℕ → AuditRow
  attestation_completion_recorded signature_completion_recorded : ℕ → AuditRow
  external_payment_recorded : AuditRow
  field_human_observation : ℕ → AuditRow
  submission_evidence_verified submission_evidence_recorded : Uuid → AuditRow

pub record Store : Type 0 where
  pub run : PortalRun
  pub portal : Option PortalDefinition
  pub review : Option PortalReviewVersion
  pub adapter : Option PortalAdapterVersion
  pub principals : List UserPrincipal
  pub authorizations : List PortalUserAuthorization
  pub sessions : List BrowserSession
  pub fields : List PortalRunField
  pub documents : List PortalRunDocument
  pub steps : List PortalRunStep
  pub snapshots : List PreSubmissionSnapshot
  pub handoffs : List HumanHandoff
  pub attestations : List PortalAttestationRecord
  pub payment : Option PortalPaymentRecord
  pub form : Option GovernedForm
  pub library : List DocumentVersion
  pub evidence_documents : List EvidenceDocument
  pub evidence : List SubmissionEvidence
  pub follow_up_due : Option ℕ
  pub case : CaseStore
  pub jobs : List PortalJob
  pub audit : List AuditRow

pub record Settings : Type 0 where
  pub portal_automation_enabled : Bool
  pub browser_automation_enabled : Bool
  pub browser_session_max_minutes : ℕ
  pub portal_upload_max_files : ℕ
  pub portal_upload_allowed_mime_types : List String
  pub portal_upload_max_total_bytes : ℕ

-- Who calls, the reading of the clock, and the ids that the call may give to a new row and a job.
pub record Caller : Type 0 where
  pub actor_id : String
  pub tenant_id : String
  pub object_id : String
  pub now : ℕ
  pub fresh : ℕ
