-- ===== src/Portals/Evidence.antt =====
-- Evidence that is added by hand: `add_evidence` of app/services/submission_evidence_service.py,
-- with `SubmissionEvidenceType` of app/portals/enums.py.
use astra_licensing_graph.Prelude.{
  ℕ, Bool, true, false, not, ◌||◌, ◌&&◌, Option, none, some, List, [], ◌∷◌, String, ◌==◌, is_some,
  optional_true, text_true,
}
use Prim.Native.Char.{code}
use astra_licensing_graph.Licensing.CaseRows.{Uuid}
use astra_licensing_graph.Portals.Policies.{mem_text}
use astra_licensing_graph.Portals.Rows.{
  Caller, Store, SubmissionEvidence, submission_evidence_recorded,
}
use astra_licensing_graph.Portals.Results.{Conflict, Result, ok, require, ◌>>◌}
use astra_licensing_graph.Portals.Governance.{audited}
use astra_licensing_graph.Portals.Submission.{check_document}

unfoldable pub submission_evidence_types : List String
submission_evidence_types =
    "PORTAL_CONFIRMATION" ∷ "RECEIPT" ∷ "PAYMENT_RECEIPT" ∷ "SUBMISSION_PDF" ∷ "SCREENSHOT"
    ∷ "CONFIRMATION_EMAIL" ∷ "MANUAL_CONFIRMATION" ∷ "VENDOR_CONFIRMATION"
    ∷ "REGULATOR_CONFIRMATION" ∷ []

-- `s.startswith(prefix)`
unfoldable pub starts_with : (prefix s : String) → Bool
starts_with String.[] s = true
starts_with (String.◌∷◌ c p) String.[] = false
starts_with (String.◌∷◌ c p) (String.◌∷◌ d s) = (code c == code d) && starts_with p s

-- `not uri or uri.startswith("sharepoint://")`
unfoldable pub is_governed_uri : Option String → Bool
unfolding starts_with
is_governed_uri none = true
is_governed_uri (some uri) = not (text_true uri) || starts_with "sharepoint://" uri

-- The fields that the caller gives, with the id that the new row gets.
pub record EvidenceFields : Type 0 where
  pub evidence_type : String
  pub confirmation_number : Option String
  pub filing_reference : Option String
  pub source_document_id : Option ℕ
  pub screenshot_storage_uri : Option String
  pub receipt_storage_uri : Option String
  pub evidence_sha256 : Option String
  pub submitted_at : Option ℕ
  pub evidence_id : Uuid

unfoldable pub added_evidence : Caller → EvidenceFields → SubmissionEvidence
added_evidence c r = record {
  id = r.evidence_id;
  confirmation_number = r.confirmation_number;
  filing_reference = r.filing_reference;
  source_document_id = r.source_document_id;
  evidence_sha256 = r.evidence_sha256;
  submitted_by_actor = c.actor_id;
  submitted_at = r.submitted_at;
}

unfoldable pub add_evidence : Store → Caller → EvidenceFields → Result Store
add_evidence s c r = do
  require (mem_text r.evidence_type submission_evidence_types) Conflict.unknown_evidence_type
  check_document s r.source_document_id
  require (is_governed_uri r.screenshot_storage_uri) Conflict.ungoverned_artifact
  require (is_governed_uri r.receipt_storage_uri) Conflict.ungoverned_artifact
  require
      (optional_true r.confirmation_number
        || optional_true r.filing_reference
        || is_some r.source_document_id
        || optional_true r.evidence_sha256)
      Conflict.unverifiable_evidence
  ok (
      audited (submission_evidence_recorded r.evidence_id)
        (record s { evidence = added_evidence c r ∷ s.evidence }))
