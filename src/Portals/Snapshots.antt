-- ===== src/Portals/Snapshots.antt =====
-- `create_snapshot`, `approve_snapshot` and `reject_snapshot` of app/services/portal_run_service.py,
-- with `compare_field` of app/portals/discrepancies.py and the unique index of
-- app/models/portal.py on the approved snapshot of a run. `canonical_snapshot_hash`, which is
-- SHA-256 over a JSON text, is a parameter.
use astra_licensing_graph.Prelude.{
  ℕ, ◌+◌, Bool, false, not, ◌&&◌, Option, none, some, List, [], ◌∷◌, ◌++◌, map, String,
  if◌then◌else◌, ◌==◌, leb, length, find_first, select, str_eq, optional_true,
}
use astra_licensing_graph.Portals.Vocabulary.{
  PortalRunStatus, PortalStepType, SnapshotStatus, is_approved, is_discrepancy, is_ready_for_review,
  is_rejectable, is_validation_step, is_verified,
}
use astra_licensing_graph.Portals.Rows.{
  Caller, Discrepancy, GovernedForm, Manifest, PortalFieldMapping, PortalMessage, PortalRun,
  PortalRunDocument, PortalRunField, PortalRunStep, PreSubmissionSnapshot, SnapshotPayload, Store,
  document_missing, field_discrepancy, portal_validation_error, snapshot_approved, snapshot_created,
  snapshot_rejected,
}
use astra_licensing_graph.Portals.Results.{
  Conflict, Error, Result, err, found, ok, require, ◌>>=◌, ◌>>◌,
}
use astra_licensing_graph.Portals.Governance.{
  add_step, audited, in_status, put_snapshot, revalidate_governance,
}

-- `approved and entered != approved`
differs : Option String → Option String → Bool
differs none entered = false
differs (some a) none = optional_true (some a)
differs (some a) (some e) = optional_true (some a) && not (str_eq e a)

unfoldable pub compare_field :
    (field_key : String) (approved entered : Option String) (required : Bool) → List Discrepancy
unfolding differs
compare_field key approved entered required =
    if required && not (optional_true entered)
    then field_discrepancy "FIELD_MISSING" key ∷ []
    else if differs approved entered
    then field_discrepancy "VALUE_MISMATCH" key ∷ []
    else []

-- `bool(mapping and mapping.required and not mapping.human_only)`
unfoldable pub demanded : Option PortalFieldMapping → Bool
demanded none = false
demanded (some m) = m.required && not m.human_only

code_or : Option String → String → String
code_or none d = d
code_or (some t) d = if optional_true (some t) then t else d

flagged : PortalRunField → List Discrepancy
unfolding code_or
flagged f =
    if is_discrepancy f.status
    then field_discrepancy (code_or f.discrepancy_code "VALUE_MISMATCH") f.portal_field_key ∷ []
    else []

unfoldable pub field_discrepancies : List PortalRunField → List Discrepancy
unfolding flagged
field_discrepancies [] = []
field_discrepancies (f ∷ fs) =
    flagged f
    ++ (compare_field f.portal_field_key f.approved_value_fingerprint f.entered_value_fingerprint
          (demanded f.mapping)
        ++ field_discrepancies fs)

unfoldable pub document_discrepancies : List PortalRunDocument → List Discrepancy
document_discrepancies [] = []
document_discrepancies (d ∷ ds) =
    let rest = document_discrepancies ds in
    if is_verified d.status then rest else document_missing d.document_id ∷ rest

messages_of : Option PortalRunStep → List PortalMessage
messages_of none = []
messages_of (some step) = step.messages

-- The messages of the newest validation step.
unfoldable pub latest_validation_messages : Store → List PortalMessage
unfolding messages_of
latest_validation_messages s =
    messages_of (find_first (λ x. is_validation_step x.step_type) s.steps)

unfoldable pub message_discrepancies : List PortalMessage → List Discrepancy
message_discrepancies ms =
    map (λ m. portal_validation_error m.message) (select (λ m. m.blocking) ms)

unfoldable pub discrepancies : Store → List Discrepancy
discrepancies s =
    field_discrepancies s.fields
    ++ (document_discrepancies s.documents ++ message_discrepancies (latest_validation_messages s))

unfoldable pub max_version : List PreSubmissionSnapshot → ℕ
max_version [] = 0
max_version (x ∷ xs) = let rest = max_version xs in if leb rest x.version then x.version else rest

unfoldable pub latest_snapshot : List PreSubmissionSnapshot → Option PreSubmissionSnapshot
latest_snapshot [] = none
latest_snapshot (x ∷ xs) = elim (latest_snapshot xs) [
  | none ↦ some x
  | some y ↦ if leb y.version x.version then some x else some y
]

form_version : Option ℕ → Option GovernedForm → Option ℕ
form_version (some i) (some f) = some f.version
form_version _ _ = none

unfoldable pub manifest_of : Store → Manifest
unfolding form_version
manifest_of s = record {
  form_instance_version = form_version s.run.form_instance_id s.form;
  field_manifest = s.fields;
  document_manifest = s.documents;
  portal_validation_messages = latest_validation_messages s;
  discrepancy_report = discrepancies s;
}

unfoldable pub payload_of : PortalRun → Manifest → SnapshotPayload
payload_of run m = record {
  portal_definition_id = run.portal_definition_id;
  portal_review_version_id = run.portal_review_version_id;
  portal_adapter_version_id = run.portal_adapter_version_id;
  legal_entity_id = run.legal_entity_id;
  compliance_case_id = run.compliance_case_id;
  filing_type = run.filing_type;
  manifest = m;
}

-- The snapshot's status and the run's, by whether there is a discrepancy.
unfoldable pub snapshot_status : List Discrepancy → SnapshotStatus
snapshot_status [] = SnapshotStatus.ready_for_review
snapshot_status (d ∷ ds) = SnapshotStatus.discrepancies_found

unfoldable pub captured_status : List Discrepancy → PortalRunStatus
captured_status [] = PortalRunStatus.ready_for_pre_submission_review
captured_status (d ∷ ds) = PortalRunStatus.discrepancies_found

unfoldable pub snapshot_by_id : ℕ → Store → Option PreSubmissionSnapshot
snapshot_by_id i s = find_first (λ r. r.id == i) s.snapshots

-- The unique index on the approved snapshot.
unfoldable pub approved_count : List PreSubmissionSnapshot → ℕ
approved_count rs = length (select (λ r. is_approved r.status) rs)

abbrev pub reviewed : SnapshotStatus → Caller → PreSubmissionSnapshot → PreSubmissionSnapshot
reviewed st c r = record r { status = st; reviewed_by_actor = some c.actor_id }

unfoldable pub is_latest : Option PreSubmissionSnapshot → PreSubmissionSnapshot → Bool
is_latest none r = false
is_latest (some l) r = l.id == r.id

-- The writes of `create_snapshot`.
unfoldable pub with_snapshot : Store → PreSubmissionSnapshot → Store
with_snapshot s r = audited (snapshot_created r.id) (
    add_step PortalStepType.pre_submission_capture none [] (
      in_status (captured_status r.manifest.discrepancy_report)
        (record s { snapshots = r ∷ s.snapshots })))

-- The writes of `approve_snapshot`, before the commit.
unfoldable pub with_approval : Store → PreSubmissionSnapshot → Caller → Store
with_approval s r c = audited (snapshot_approved r.id) (
    in_status PortalRunStatus.pre_submission_approved
      (record s { snapshots = put_snapshot (reviewed SnapshotStatus.approved c r) s.snapshots }))

unfoldable pub commit_approval : Store → Result Store
commit_approval s = if leb (approved_count s.snapshots) 1 then ok s else err Error.integrity

module _ (canonical_snapshot_hash : SnapshotPayload → String) where
  unfoldable pub new_snapshot : Store → Caller → PreSubmissionSnapshot
  new_snapshot s c =
      let m = manifest_of s in
      record {
        id = c.fresh;
        version = max_version s.snapshots + 1;
        manifest = m;
        snapshot_sha256 = canonical_snapshot_hash (payload_of s.run m);
        status = snapshot_status m.discrepancy_report;
        created_by_actor = c.actor_id;
        reviewed_by_actor = none;
      }

  unfoldable pub create_snapshot : Store → Caller → Result Store
  create_snapshot s c = do
    _ ← revalidate_governance s c.now
    ok (with_snapshot s (new_snapshot s c))

  unfoldable pub approve_snapshot : Store → Caller → (snapshot_id : ℕ) → Result Store
  approve_snapshot s c snapshot_id = do
    r ← found (snapshot_by_id snapshot_id s) Error.not_found
    require (is_ready_for_review r.status) Conflict.snapshot_not_ready
    require (not (str_eq r.created_by_actor c.actor_id)) Conflict.creator_approves
    _ ← revalidate_governance s c.now
    require (is_latest (latest_snapshot s.snapshots) r) Conflict.not_latest
    require (str_eq (canonical_snapshot_hash (payload_of s.run r.manifest)) r.snapshot_sha256)
        Conflict.hash_mismatch
    commit_approval (with_approval s r c)

unfoldable pub reject_snapshot : Store → Caller → (snapshot_id : ℕ) → Result Store
reject_snapshot s c snapshot_id = do
  r ← found (snapshot_by_id snapshot_id s) Error.not_found
  require (is_rejectable r.status) Conflict.not_rejectable
  ok (
      audited (snapshot_rejected r.id) (
        in_status PortalRunStatus.discrepancies_found (record s {
          snapshots = put_snapshot (reviewed SnapshotStatus.rejected c r) s.snapshots;
        })))
