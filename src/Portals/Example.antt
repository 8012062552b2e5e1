-- ===== src/Portals/Example.antt =====
-- The rows of a portal run at SESSION_ACTIVE, its portal, its case and two callers, for the tests.
use astra_licensing_graph.Prelude.{true, none, some, [], ◌∷◌, String, end}
use astra_licensing_graph.Licensing.Stages.{CaseStage, CaseStatus}
use astra_licensing_graph.Licensing.Transition.{known}
use astra_licensing_graph.Licensing.CaseRows as CaseRows
use astra_licensing_graph.Licensing.CaseRows.{ComplianceCase, FormInstance, uuid}
use astra_licensing_graph.Portals.Vocabulary.{
  AutomationLevel, BrowserSessionStatus, PortalApprovalStatus, PortalReviewStatus, PortalRunStatus,
}
use astra_licensing_graph.Portals.Rows.{
  BrowserSession, Caller, PortalDefinition, PortalReviewVersion, PortalRun, Settings,
  SnapshotPayload, Store,
}
use astra_licensing_graph.Portals.Steps.{Environment}

abbrev pub hash : SnapshotPayload → String
hash p = p.filing_type

abbrev pub settings : Settings
settings = record {
  portal_automation_enabled = true;
  browser_automation_enabled = true;
  browser_session_max_minutes = 30;
  portal_upload_max_files = 5;
  portal_upload_allowed_mime_types = [];
  portal_upload_max_total_bytes = 1000;
}

abbrev pub env : Environment
env = record {
  upper = λ t. t;
  canonical_snapshot_hash = hash;
  fingerprint = λ t. t;
  redact_emails = λ t. t;
  redact_numbers = λ t. t;
  settings = settings;
}

abbrev pub ana : Caller
ana = record { actor_id = "ana"; tenant_id = "t"; object_id = "a"; now = 10; fresh = 70 }

abbrev pub bob : Caller
bob = record { actor_id = "bob"; tenant_id = "t"; object_id = "b"; now = 20; fresh = 71 }

abbrev pub run : PortalRun
run = record {
  id = uuid "4" "2";
  portal_definition_id = 1;
  portal_review_version_id = 2;
  portal_adapter_version_id = none;
  compliance_case_id = 3;
  legal_entity_id = 4;
  form_instance_id = none;
  document_packet_id = none;
  filing_type = "RENEWAL";
  automation_level = AutomationLevel.assisted_entry;
  status = PortalRunStatus.session_active;
  current_stage = PortalRunStatus.session_active;
  assigned_operator_id = some 1;
  assigned_signatory_id = none;
  assigned_payment_approver_id = none;
  started_at = some 5;
  submitted_at = none;
  completed_at = none;
}

abbrev pub portal : PortalDefinition
portal = record {
  status = PortalApprovalStatus.approved_assisted;
  approved_automation_level = AutomationLevel.assisted_entry;
  portal_type = "REGULATOR";
  terms_review_expires_at = none;
}

abbrev pub review : PortalReviewVersion
review = record {
  status = PortalReviewStatus.approved;
  allowed_actions = end;
  prohibited_actions = end;
  approved_filing_types = "RENEWAL" ∷ [];
  approved_entity_ids = [];
  valid_from = none;
  valid_to = none;
}

abbrev pub session : BrowserSession
session = record {
  id = 9;
  operator_user_id = 1;
  session_status = BrowserSessionStatus.active_automation;
  expires_at = 1000;
}

abbrev pub pending_case : CaseRows.Store
pending_case = record {
  case = some (record {
    current_stage = known CaseStage.submission_pending;
    status = CaseStatus.«open»;
    stage_entered_at = some 1;
    created_at = some 1;
    close_reason = none;
    blocked_reason = none;
    completed_at = none;
  });
  instances = (record { signature_required = true; signed_document_id = some (uuid "7" "f") }) ∷ [];
  packets = [];
  events = [];
  audit = [];
  obligation = none;
}

abbrev pub opened : Store
opened = record {
  run = run;
  portal = some portal;
  review = some review;
  adapter = none;
  principals =
      (record { id = 1; tenant_id = "t"; object_id = "a" })
      ∷ (record { id = 2; tenant_id = "t"; object_id = "b" })
      ∷ [];
  authorizations = [];
  sessions = session ∷ [];
  fields = [];
  documents = [];
  steps = [];
  snapshots = [];
  handoffs = [];
  attestations = [];
  payment = none;
  form = none;
  library = [];
  evidence_documents = [];
  evidence = [];
  follow_up_due = none;
  case = pending_case;
  jobs = [];
  audit = [];
}
