-- ===== src/Portals/Governance.antt =====
-- The checks and writes that the portal services share: `revalidate_governance`, the checks of the
-- actor and of the authorization, `active_browser_session`, `_invalidate_snapshot`, `_add_step` of
-- app/services/portal_run_service.py, and `enqueue` and `cancel_pending_for_run` of
-- app/repositories/portal_jobs.py.
use astra_licensing_graph.Prelude.{
  ℕ, ◌+◌, Bool, true, false, not, ◌&&◌, Option, none, some, List, [], ◌∷◌, map, String,
  if◌then◌else◌, ◌==◌, leb, any, find_first, str_eq,
}
use astra_licensing_graph.Portals.Vocabulary.{
  PortalRunStatus, PortalStepType, SnapshotStatus, in_active_session_statuses, is_approved,
}
use astra_licensing_graph.Portals.Policies.{
  adapter_is_active, approval_is_current, authorization_is_current, filled, mem_id, mem_text,
}
use astra_licensing_graph.Portals.Rows.{
  AuditRow, BrowserSession, Caller, JobKey, PortalAdapterVersion, PortalDefinition, PortalJob,
  PortalJobStatus, PortalMessage, PortalReviewVersion, PortalRun, PortalRunStep,
  PortalUserAuthorization, PreSubmissionSnapshot, Store, UserPrincipal, snapshot_invalidated,
}
use astra_licensing_graph.Portals.Results.{
  Conflict, Error, Result, err, found, granted_or, ok, present, require, ◌>>=◌, ◌>>◌,
}

-- `run.status = st; run.current_stage = st`
abbrev pub set_status : PortalRunStatus → PortalRun → PortalRun
set_status st run = record run { status = st; current_stage = st }

unfoldable pub in_status : PortalRunStatus → Store → Store
in_status st s = record s { run = set_status st s.run }

unfoldable pub audited : AuditRow → Store → Store
audited a s = record s { audit = a ∷ s.audit }

-- `xs and x not in xs`
abbrev pub outside_ids : ℕ → List ℕ → Bool
outside_ids x xs = filled xs && not (mem_id x xs)

-- The pinned adapter, if any, is there and active.
unfoldable pub adapter_current : Option ℕ → Option PortalAdapterVersion → Bool
adapter_current none a = true
adapter_current (some i) none = false
adapter_current (some i) (some a) = adapter_is_active a.status

unfoldable pub revalidate_governance : Store → ℕ → Result (PortalDefinition × PortalReviewVersion)
revalidate_governance s now = do
  portal ← found s.portal Error.not_found
  review ← present s.review Conflict.review_missing
  granted_or (
      approval_is_current portal.status review.status review.valid_from review.valid_to
        portal.terms_review_expires_at now)
  require (mem_text s.run.filing_type review.approved_filing_types) Conflict.review_filing_type
  require (not (outside_ids s.run.legal_entity_id review.approved_entity_ids))
      Conflict.review_entity
  require (adapter_current s.run.portal_adapter_version_id s.adapter) Conflict.adapter_inactive
  ok (portal, review)

-- The principal whose tenant and object the caller has.
unfoldable pub principal_of : Store → Caller → Option UserPrincipal
principal_of s c =
    find_first (λ p. str_eq p.tenant_id c.tenant_id && str_eq p.object_id c.object_id) s.principals

unfoldable pub is_user : Option UserPrincipal → ℕ → Bool
is_user none user = false
is_user (some p) user = p.id == user

unfoldable pub acts_as : Store → Caller → ℕ → Bool
acts_as s c user = is_user (principal_of s c) user

abbrev pub assert_actor_is_user : Store → Caller → ℕ → Result (Unit {0})
assert_actor_is_user s c user = require (acts_as s c user) Conflict.actor_not_assigned

decide_authorization : Store → Option PortalUserAuthorization → ℕ → Result (Unit {0})
decide_authorization s none now = err (Error.state_conflict Conflict.not_authorized)
decide_authorization s (some a) now = granted_or (
    authorization_is_current a.authorization_status a.expires_at s.run.filing_type
      s.run.legal_entity_id a.authorized_filing_types a.authorized_entity_ids now)

unfoldable pub assert_user_authorized : Store → ℕ → ℕ → Result (Unit {0})
unfolding decide_authorization
assert_user_authorized s user now =
    decide_authorization s (find_first (λ a. a.user_principal_id == user) s.authorizations) now

abbrev pub is_live : BrowserSession → Bool
is_live b = in_active_session_statuses b.session_status

-- The operator's own session that is in use.
unfoldable pub operator_session : Store → ℕ → Option BrowserSession
operator_session s operator =
    find_first (λ b. (b.operator_user_id == operator) && is_live b) s.sessions

unfoldable pub live_session : Store → Option BrowserSession
live_session s = find_first is_live s.sessions

unfoldable pub active_browser_session : Store → Caller → Result BrowserSession
unfolding operator_session
active_browser_session s c = do
  operator ← present s.run.assigned_operator_id Conflict.no_operator
  assert_actor_is_user s c operator
  present (operator_session s operator) Conflict.no_session

-- Equality of the texts of two keys.
unfoldable pub same_key : JobKey → JobKey → Bool
same_key (JobKey.navigate a r q) (JobKey.navigate b t u) = (a == b) && str_eq r t && (q == u)
same_key (JobKey.validation q) (JobKey.validation u) = q == u
same_key (JobKey.resume q) (JobKey.resume u) = q == u
same_key (JobKey.field_entry q) (JobKey.field_entry u) = q == u
same_key (JobKey.upload q) (JobKey.upload u) = q == u
same_key (JobKey.close_session a) (JobKey.close_session b) = a == b
same_key (JobKey.owner_change a) (JobKey.owner_change b) = a == b
same_key (JobKey.session_start a) (JobKey.session_start b) = a == b
same_key (JobKey.handoff_verify a q) (JobKey.handoff_verify b u) = (a == b) && (q == u)
same_key (JobKey.submission_capture a) (JobKey.submission_capture b) = a == b
same_key _ _ = false

new_job : JobKey → ℕ → ℕ → PortalJob
new_job key session attempts = record {
  key = key;
  status = PortalJobStatus.pending;
  browser_session_id = session;
  max_attempts = attempts;
}

-- A job whose key is there already is not added again.
unfoldable pub add_job : JobKey → ℕ → ℕ → List PortalJob → List PortalJob
unfolding same_key new_job
add_job key session attempts jobs =
    if any (λ j. same_key j.key key) jobs then jobs else new_job key session attempts ∷ jobs

unfoldable pub enqueue : JobKey → ℕ → ℕ → Store → Store
unfolding add_job
enqueue key session attempts s = record s { jobs = add_job key session attempts s.jobs }

cancel_job : PortalJob → PortalJob
cancel_job j = elim j.status [
  | PortalJobStatus.pending ↦ record j { status = PortalJobStatus.cancelled }
  | PortalJobStatus.failed_retryable ↦ record j { status = PortalJobStatus.cancelled }
  | PortalJobStatus.waiting_human ↦ record j { status = PortalJobStatus.cancelled }
  | _ ↦ j
]

unfoldable pub cancel_pending_for_run : Store → Store
unfolding cancel_job
cancel_pending_for_run s = record s { jobs = map cancel_job s.jobs }

-- The row with its id, written back.
abbrev pub put_snapshot :
    PreSubmissionSnapshot → List PreSubmissionSnapshot → List PreSubmissionSnapshot
put_snapshot row = map (λ r. if r.id == row.id then row else r)

unfoldable pub approved_snapshot : Store → Option PreSubmissionSnapshot
approved_snapshot s = find_first (λ r. is_approved r.status) s.snapshots

-- `_invalidate_snapshot`; that of the entry service writes no audit row.
withdraw : Store → Option PreSubmissionSnapshot → Store
withdraw s none = s
withdraw s (some r) = record s {
  snapshots = put_snapshot (record r { status = SnapshotStatus.superseded }) s.snapshots;
  run = set_status PortalRunStatus.discrepancies_found s.run;
}

note_withdrawn : Option PreSubmissionSnapshot → Store → Store
note_withdrawn none s = s
note_withdrawn (some r) s = audited (snapshot_invalidated r.id) s

unfoldable pub withdraw_approval : Store → Store
unfolding withdraw
withdraw_approval s = withdraw s (approved_snapshot s)

unfoldable pub invalidate_snapshot : Store → Store
unfolding withdraw note_withdrawn
invalidate_snapshot s = note_withdrawn (approved_snapshot s) (withdraw s (approved_snapshot s))

max_sequence : List PortalRunStep → ℕ
max_sequence [] = 0
max_sequence (x ∷ xs) =
    let rest = max_sequence xs in if leb rest x.sequence_number then x.sequence_number else rest

unfoldable pub add_step : PortalStepType → Option String → List PortalMessage → Store → Store
unfolding max_sequence
add_step t page messages s = record s {
  steps =
      (record {
        sequence_number = max_sequence s.steps + 1;
        step_type = t;
        page_category = page;
        messages = messages;
      })
      ∷ s.steps;
}
