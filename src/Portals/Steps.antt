-- ===== src/Portals/Steps.antt =====
-- A run of calls and other changes: the calls of app/services/portal_run_service.py,
-- app/services/portal_session_service.py, app/services/portal_entry_service.py and
-- app/services/submission_evidence_service.py, one after the other, with what the worker
-- (app/workers/portal_jobs.py) and the other services write between them.
use astra_licensing_graph.Prelude.{◌≡◌, ℕ, Option, false, List, String}
use astra_licensing_graph.Portals.Vocabulary.{HandoffType, is_submitted}
use astra_licensing_graph.Portals.Rows.{Caller, RawMessage, Settings, SnapshotPayload, Store}
use astra_licensing_graph.Portals.Results.{Result, settled}
use astra_licensing_graph.Portals.RunService as RunService
use astra_licensing_graph.Portals.RunService.{RunUpdate}
use astra_licensing_graph.Portals.Snapshots as Snapshots
use astra_licensing_graph.Portals.Sessions as Sessions
use astra_licensing_graph.Portals.Handoffs as Handoffs
use astra_licensing_graph.Portals.HumanActions as HumanActions
use astra_licensing_graph.Portals.Submission as Submission
use astra_licensing_graph.Portals.Submission.{Capture}
use astra_licensing_graph.Portals.Evidence as Evidence
use astra_licensing_graph.Portals.Evidence.{EvidenceFields}
use astra_licensing_graph.Portals.Entry as Entry
use astra_licensing_graph.Portals.Outcomes.{Leaves, Leaves-settled}
use astra_licensing_graph.Portals.Sound.{IsSound, IsSound-moves, IsSound-stays, SameRows}
use astra_licensing_graph.Portals.RunKept as RunKept
use astra_licensing_graph.Portals.SnapshotsKept as SnapshotsKept
use astra_licensing_graph.Portals.SessionsKept as SessionsKept
use astra_licensing_graph.Portals.ActionsKept as ActionsKept
use astra_licensing_graph.Portals.SubmissionKept as SubmissionKept
use astra_licensing_graph.Portals.EntryKept as EntryKept

-- What the services take from libraries and from the settings.
pub record Environment : Type 0 where
  pub upper : String → String
  pub canonical_snapshot_hash : SnapshotPayload → String
  pub fingerprint : String → String
  pub redact_emails : String → String
  pub redact_numbers : String → String
  pub settings : Settings

-- The methods on a run that is there, with their arguments.
pub data Call : Type 0 where
  start pause resume cancel queue_validation create_snapshot request_session : Call
  update_run : RunUpdate → Call
  queue_navigation : (route_key : String) (request_id : ℕ) → Call
  capture_validation : (messages : List RawMessage) (page : String) → Call
  approve_snapshot reject_snapshot take_control return_control close : ℕ → Call
  create_handoff : HandoffType → (requested_from expires_at session_id : Option ℕ) → Call
  accept_handoff : ℕ → Call
  request_handoff_completion decline_handoff : ℕ → String → Call
  ensure_attestation : String → ℕ → Option String → Call
  record_attestation_completion : ℕ → String → Option String → Call
  record_signature_completion : ℕ → Call
  ensure_payment : Option ℕ → (currency fee_summary : Option String) → Call
  approve_payment : Call
  record_external_payment : Option ℕ → Call
  request_final_submit_handoff request_submission_reconciliation : Call
  capture_submission_result : Capture → Call
  add_evidence : EvidenceFields → Call
  queue_field_entry : Call
  record_worker_field_result record_human_field_observation : ℕ → (seen other : String) → Call
  queue_document_upload : (today : ℕ) → Call
  record_document_observation : (today run_document_id : ℕ) → String → ℕ → Call

unfoldable pub perform : Environment → Store → Caller → Call → Result Store
perform env s c start = RunService.start env.settings s c
perform env s c pause = RunService.pause s
perform env s c resume = RunService.resume s c
perform env s c cancel = RunService.cancel s c
perform env s c queue_validation = RunService.queue_validation env.upper s c
perform env s c create_snapshot = Snapshots.create_snapshot env.canonical_snapshot_hash s c
perform env s c request_session = Sessions.request_session env.settings s c
perform env s c (update_run u) = RunService.update_run s c u
perform env s c (queue_navigation route request) =
    RunService.queue_navigation env.upper s c route request
perform env s c (capture_validation messages page) =
    RunService.capture_validation env.redact_emails env.redact_numbers s messages page
perform env s c (approve_snapshot i) = Snapshots.approve_snapshot env.canonical_snapshot_hash s c i
perform env s c (reject_snapshot i) = Snapshots.reject_snapshot s c i
perform env s c (take_control i) = Sessions.take_control s c i
perform env s c (return_control i) = Sessions.return_control s c i
perform env s c (close i) = Sessions.close s c i
perform env s c (create_handoff t user expires_at session) =
    Handoffs.create_handoff s c t user expires_at session
perform env s c (accept_handoff i) = Handoffs.accept_handoff s c i
perform env s c (request_handoff_completion i result) =
    Handoffs.request_handoff_completion s c i result
perform env s c (decline_handoff i reason) = Handoffs.decline_handoff s c i reason
perform env s c (ensure_attestation type user text) =
    HumanActions.ensure_attestation s c.fresh type user text
perform env s c (record_attestation_completion i page evidence) =
    HumanActions.record_attestation_completion s c i page evidence
perform env s c (record_signature_completion i) = HumanActions.record_signature_completion s c i
perform env s c (ensure_payment fee currency summary) =
    HumanActions.ensure_payment s fee currency summary
perform env s c approve_payment = HumanActions.approve_payment s c
perform env s c (record_external_payment receipt) = HumanActions.record_external_payment s c receipt
perform env s c request_final_submit_handoff = Submission.request_final_submit_handoff s c
perform env s c request_submission_reconciliation = Submission.request_submission_reconciliation s c
perform env s c (capture_submission_result r) = Submission.capture_submission_result env.upper s c r
perform env s c (add_evidence r) = Evidence.add_evidence s c r
perform env s c queue_field_entry = Entry.queue_field_entry env.upper s c
perform env s c (record_worker_field_result i entered displayed) =
    Entry.record_worker_field_result env.fingerprint s i entered displayed
perform env s c (record_human_field_observation i displayed expected) =
    Entry.record_human_field_observation env.fingerprint s i displayed expected
perform env s c (queue_document_upload today) =
    Entry.queue_document_upload env.upper env.settings s c today
perform env s c (record_document_observation today i name size) =
    Entry.record_document_observation s today i name size

-- One change of the rows: a call, other rows written by other code, or the run given a status
-- other than SUBMITTED by the worker, together with its stage.
pub data Step (env : Environment) : Store → Store → Type 0 where
  called : {s : Store} (c : Caller) (k : Call) → Step env s (settled s (perform env s c k))
  elsewhere :
      {s s' : Store}
      → SameRows s s'
      → s'.run.current_stage ≡ s.run.current_stage
      → s'.run.status ≡ s.run.status
      → Step env s s'
  worked :
      {s s' : Store}
      → SameRows s s'
      → s'.run.current_stage ≡ s'.run.status
      → is_submitted s'.run.status ≡ false
      → Step env s s'

pub data Steps (env : Environment) : Store → Store → Type 0 where
  stay : {s : Store} → Steps env s s
  then : {s s' s'' : Store} → Step env s s' → Steps env s' s'' → Steps env s s''

module _ (env : Environment) where
  abbrev Sound : Store → Type 0
  Sound = IsSound env.canonical_snapshot_hash

  perform-Kept : (s : Store) (c : Caller) (k : Call) → Sound s → Leaves Sound (perform env s c k)
  unfolding perform
  perform-Kept s c start v = RunKept.start-Kept _ s c v _
  perform-Kept s c pause v = RunKept.pause-Kept _ s v
  perform-Kept s c resume v = RunKept.resume-Kept _ s c v
  perform-Kept s c cancel v = RunKept.cancel-Kept _ s c v
  perform-Kept s c queue_validation v = RunKept.queue_validation-Kept _ s c v _
  perform-Kept s c create_snapshot v = SnapshotsKept.create_snapshot-Kept _ s c v
  perform-Kept s c request_session v = SessionsKept.request_session-Kept _ s c v _
  perform-Kept s c (update_run u) v = RunKept.update_run-Kept _ s c v u
  perform-Kept s c (queue_navigation a b) v = RunKept.queue_navigation-Kept _ s c v _ a b
  perform-Kept s c (capture_validation a b) v = RunKept.capture_validation-Kept _ _ _ s a b v
  perform-Kept s c (approve_snapshot i) v = SnapshotsKept.approve_snapshot-Kept _ s c i v
  perform-Kept s c (reject_snapshot i) v = SnapshotsKept.reject_snapshot-Kept _ s c i v
  perform-Kept s c (take_control i) v = SessionsKept.take_control-Kept _ s c v i
  perform-Kept s c (return_control i) v = SessionsKept.return_control-Kept _ s c v i
  perform-Kept s c (close i) v = SessionsKept.close-Kept _ s c v i
  perform-Kept s c (create_handoff t a b d) v = SessionsKept.create_handoff-Kept _ s c v t a b d
  perform-Kept s c (accept_handoff i) v = SessionsKept.accept_handoff-Kept _ s c v i
  perform-Kept s c (request_handoff_completion i a) v =
      SessionsKept.request_handoff_completion-Kept _ s c v i a
  perform-Kept s c (decline_handoff i a) v = SessionsKept.decline_handoff-Kept _ s c v i a
  perform-Kept s c (ensure_attestation a b d) v = ActionsKept.ensure_attestation-Kept _ s _ a b d v
  perform-Kept s c (record_attestation_completion i a b) v =
      ActionsKept.record_attestation_completion-Kept _ s c v i a b
  perform-Kept s c (record_signature_completion i) v =
      ActionsKept.record_signature_completion-Kept _ s c v i
  perform-Kept s c (ensure_payment a b d) v = ActionsKept.ensure_payment-Kept _ s a b d v
  perform-Kept s c approve_payment v = ActionsKept.approve_payment-Kept _ s c v
  perform-Kept s c (record_external_payment r) v =
      ActionsKept.record_external_payment-Kept _ s c v r
  perform-Kept s c request_final_submit_handoff v =
      SubmissionKept.request_final_submit_handoff-Kept _ s c v
  perform-Kept s c request_submission_reconciliation v =
      SubmissionKept.request_submission_reconciliation-Kept _ s c v
  perform-Kept s c (capture_submission_result r) v =
      SubmissionKept.capture_submission_result-Kept _ s c v _ r
  perform-Kept s c (add_evidence r) v = SubmissionKept.add_evidence-Kept _ s c v r
  perform-Kept s c queue_field_entry v = EntryKept.queue_field_entry-Kept _ s v _ c
  perform-Kept s c (record_worker_field_result i a b) v =
      EntryKept.record_worker_field_result-Kept _ s v _ i a b
  perform-Kept s c (record_human_field_observation i a b) v =
      EntryKept.record_human_field_observation-Kept _ s v _ i a b
  perform-Kept s c (queue_document_upload today) v =
      EntryKept.queue_document_upload-Kept _ s v _ _ c today
  perform-Kept s c (record_document_observation today i a b) v =
      EntryKept.record_document_observation-Kept _ s v today i a b

  Step-IsSound : {s s' : Store} → Step env s s' → Sound s → Sound s'
  Step-IsSound {s} (called c k) v = Leaves-settled s (perform env s c k) (perform-Kept s c k v) v
  Step-IsSound {s} {s'} (elsewhere same stage st) v =
      IsSound-stays env.canonical_snapshot_hash s s' v same stage st
  Step-IsSound {s} {s'} (worked same stage other) v =
      IsSound-moves env.canonical_snapshot_hash s s' v same stage other

-- Whatever calls of the portal services are made on a run that is there, in whatever order, with
-- what other code writes to other rows, and the worker's changes of the run to a status other than
-- SUBMITTED, between them, sound rows stay sound: the run's stage is its status; every snapshot
-- carries the hash of its manifest and of what the run pins, is free of discrepancies if it waits
-- for review or is approved, and if approved names a reviewer other than its creator; at most one
-- snapshot is approved; a completed attestation names who completed it and its evidence; an
-- approved payment names its approver, and one that is made who paid it too; every row of evidence
-- has a number, a reference, a document or a hash; and a SUBMITTED run has a row with a number, a
-- reference or a document.
pub Steps-IsSound :
    (env : Environment) {s s' : Store}
    → Steps env s s'
    → IsSound env.canonical_snapshot_hash s
    → IsSound env.canonical_snapshot_hash s'
Steps-IsSound env stay v = v
Steps-IsSound env (then x xs) v = Steps-IsSound env xs (Step-IsSound env x v)
