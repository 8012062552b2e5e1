-- ===== src/Portals/Entry.antt =====
-- Entering fields and uploading documents: `queue_field_entry`, `record_worker_field_result`,
-- `record_human_field_observation`, `queue_document_upload`, `record_document_observation` and
-- `_validate_document` of app/services/portal_entry_service.py. The keyed fingerprint of a value
-- is a parameter. A recorded observation is in the store that the caller commits.
use astra_licensing_graph.Prelude.{
  ℕ, ◌+◌, Bool, true, false, not, ◌&&◌, Option, none, some, List, [], ◌∷◌, map, String,
  if◌then◌else◌, ◌==◌, ltb, length, find_first, str_eq, truncate,
}
use astra_licensing_graph.Portals.Vocabulary.{
  PortalDocumentStatus, PortalFieldStatus, PortalRunStatus,
}
use astra_licensing_graph.Portals.Policies.{action_is_allowed, filled, known, mem_text}
use astra_licensing_graph.Portals.Rows.{
  Caller, DocumentVersion, JobKey, PortalFieldMapping, PortalRunDocument, PortalRunField, Settings,
  Store, document_upload_queued, field_entry_queued, field_human_observation,
}
use astra_licensing_graph.Portals.Results.{
  Conflict, Error, Result, found, granted_or, ok, present, require, ◌>>=◌, ◌>>◌,
}
use astra_licensing_graph.Portals.Governance.{
  active_browser_session, audited, enqueue, in_status, revalidate_governance, withdraw_approval,
}

abbrev pub put_field : PortalRunField → List PortalRunField → List PortalRunField
put_field row = map (λ r. if r.id == row.id then row else r)

abbrev pub put_document : PortalRunDocument → List PortalRunDocument → List PortalRunDocument
put_document row = map (λ r. if r.id == row.id then row else r)

same_text : Option String → String → Bool
same_text none t = false
same_text (some a) t = str_eq a t

-- The field verified, or in discrepancy.
unfoldable pub observed : Bool → String → PortalRunField → PortalRunField
observed true entered f = record f {
  entered_value_fingerprint = some entered;
  status = PortalFieldStatus.verified;
  discrepancy_code = none;
}
observed false entered f = record f {
  entered_value_fingerprint = some entered;
  status = PortalFieldStatus.discrepancy;
  discrepancy_code = some "VALUE_MISMATCH";
}

-- A field that a worker may enter.
enterable : Option PortalFieldMapping → Bool
enterable none = false
enterable (some m) = not m.human_only

unfoldable pub with_field : PortalRunField → Store → Store
with_field f s = record s { fields = put_field f s.fields }

module _ (fingerprint : String → String) where
  unfoldable pub record_worker_field_result :
      Store → (run_field_id : ℕ) (entered_value displayed_value : String) → Result Store
  unfolding same_text enterable
  record_worker_field_result s i entered displayed = do
    f ← found (find_first (λ x. x.id == i) s.fields) Error.not_found
    require (enterable f.mapping) Conflict.field_human_only
    let same =
        same_text f.approved_value_fingerprint (fingerprint entered)
        && same_text f.approved_value_fingerprint (fingerprint displayed)
    ok (withdraw_approval (with_field (observed same (fingerprint entered) f) s))

  unfoldable pub record_human_field_observation :
      Store → (field_id : ℕ) (displayed_value expected_approved_fingerprint : String) → Result Store
  unfolding same_text
  record_human_field_observation s i displayed expected = do
    f ← found (find_first (λ x. x.id == i) s.fields) Error.not_found
    require (same_text f.approved_value_fingerprint expected) Conflict.field_changed
    let same = same_text f.approved_value_fingerprint (fingerprint displayed)
    ok (
        audited (field_human_observation f.id)
          (withdraw_approval (with_field (observed same (fingerprint displayed) f) s)))

unfoldable pub queue_field_entry : (upper : String → String) → Store → Caller → Result Store
queue_field_entry upper s c = do
  (portal, review) ← revalidate_governance s c.now
  granted_or (
      action_is_allowed upper "ENTER_FIELD" (known s.run.automation_level)
        (known portal.approved_automation_level) review.allowed_actions review.prohibited_actions
        false)
  _ ← present s.run.assigned_operator_id Conflict.no_operator
  session ← active_browser_session s c
  ok (
      audited field_entry_queued (
        enqueue (JobKey.field_entry c.fresh) session.id 2
          (in_status PortalRunStatus.entry_in_progress s)))

-- `expiry_date and expiry_date < today`
expired_before : ℕ → Option ℕ → Bool
expired_before today none = false
expired_before today (some d) = ltb d today

unfoldable pub is_valid_version : (today : ℕ) → String → DocumentVersion → Bool
unfolding expired_before
is_valid_version today expected v =
    v.is_approved_document
    && v.is_active_document
    && v.is_current
    && v.is_stored
    && str_eq v.version_sha256 expected
    && str_eq v.document_sha256 expected
    && not (expired_before today v.expiry_date)

unfoldable pub validate_document : Store → (today : ℕ) → PortalRunDocument → Result DocumentVersion
validate_document s today d = do
  v ←
      present
        (find_first
          (λ x. (x.document_id == d.document_id) && (x.version_id == d.document_version_id))
          s.library)
        Conflict.document_missing
  require (is_valid_version today d.expected_sha256 v) Conflict.document_invalid
  _ ← present s.run.document_packet_id Conflict.no_packet
  ok v

-- Every document is valid and of a permitted type; the result is their size together.
unfoldable pub total_size : Settings → Store → (today : ℕ) → List PortalRunDocument → Result ℕ
total_size settings s today [] = ok 0
total_size settings s today (d ∷ ds) = do
  v ← validate_document s today d
  require (mem_text v.mime_type settings.portal_upload_allowed_mime_types)
      Conflict.mime_type_refused
  rest ← total_size settings s today ds
  ok (v.size_bytes + rest)

upload_pending : PortalRunDocument → PortalRunDocument
upload_pending d = record d { status = PortalDocumentStatus.upload_pending }

unfoldable pub queue_document_upload :
    (upper : String → String) → Settings → Store → Caller → (today : ℕ) → Result Store
unfolding upload_pending
queue_document_upload upper settings s c today = do
  (portal, review) ← revalidate_governance s c.now
  granted_or (
      action_is_allowed upper "UPLOAD_DOCUMENT" (known s.run.automation_level)
        (known portal.approved_automation_level) review.allowed_actions review.prohibited_actions
        false)
  session ← active_browser_session s c
  require (filled s.documents) Conflict.no_documents
  require (not (ltb settings.portal_upload_max_files (length s.documents)))
      Conflict.too_many_documents
  total ← total_size settings s today s.documents
  require (not (ltb settings.portal_upload_max_total_bytes total)) Conflict.documents_too_large
  let s' = record s { documents = map upload_pending s.documents }
  ok (
      audited (document_upload_queued (length s.documents)) (
        enqueue (JobKey.upload c.fresh) session.id 2
          (in_status PortalRunStatus.upload_in_progress s')))

seen_document : Bool → String → ℕ → PortalRunDocument → PortalRunDocument
seen_document matching name size d = record d {
  portal_display_name = some (truncate 500 name);
  portal_size_bytes = some size;
  status = if matching then PortalDocumentStatus.verified else PortalDocumentStatus.failed_review;
}

unfoldable pub record_document_observation :
    Store
    → (today run_document_id : ℕ) (portal_display_name : String) (portal_size_bytes : ℕ)
    → Result Store
unfolding seen_document
record_document_observation s today i name size = do
  d ← found (find_first (λ x. x.id == i) s.documents) Error.not_found
  v ← validate_document s today d
  let matching = str_eq name d.expected_filename && (size == v.size_bytes)
  ok (
      withdraw_approval
        (record s { documents = put_document (seen_document matching name size d) s.documents }))
