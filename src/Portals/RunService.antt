-- ===== src/Portals/RunService.antt =====
-- `update_run`, `start`, `pause`, `resume`, `cancel`, `queue_navigation`, `queue_validation` and
-- `capture_validation` of app/services/portal_run_service.py, with `sanitize_portal_message` of
-- app/browser/redaction.py, whose two patterns are parameters.
use astra_licensing_graph.Prelude.{
  ℕ, Bool, true, false, not, ◌&&◌, Option, none, some, List, [], ◌∷◌, map, String, text, object,
  if◌then◌else◌, ◌==◌, any, or_else, is_some, get_field, select, text_true, truncate,
}
use Prim.Native.Nat.{zero, suc}
use astra_licensing_graph.Portals.Vocabulary.{
  AutomationLevel, PortalRunStatus, PortalStepType, in_terminal_run_statuses, is_blocked,
  is_submitted,
}
use astra_licensing_graph.Portals.Policies.{action_is_allowed, known}
use astra_licensing_graph.Portals.Rows.{
  BrowserSession, Caller, JobKey, PortalJob, PortalAdapterVersion, PortalMessage, PortalRun,
  RawMessage, Settings, Store, portal_run_cancelled, portal_run_paused, portal_run_started,
  portal_run_updated,
}
use astra_licensing_graph.Portals.Results.{
  Conflict, Error, Result, found, granted_or, ok, present, require, ◌>>=◌, ◌>>◌,
}
use astra_licensing_graph.Portals.Governance.{
  active_browser_session, add_job, add_step, assert_actor_is_user, assert_user_authorized, audited,
  cancel_pending_for_run, enqueue, in_status, invalidate_snapshot, is_live, live_session,
  revalidate_governance,
}

-- The body of an update: a key that is missing is `none`.
pub record RunUpdate : Type 0 where
  pub assigned_operator_id : Option (Option ℕ)
  pub assigned_signatory_id : Option (Option ℕ)
  pub assigned_payment_approver_id : Option (Option ℕ)

-- `changes.get(key)`
given : Option (Option ℕ) → Option ℕ
given none = none
given (some v) = v

chosen : Option (Option ℕ) → Option ℕ → Option ℕ
chosen none old = old
chosen (some v) old = v

same_user : ℕ → Option ℕ → Bool
same_user u none = false
same_user u (some v) = u == v

unfoldable pub assign : RunUpdate → PortalRun → PortalRun
unfolding chosen
assign u run = record run {
  assigned_operator_id = chosen u.assigned_operator_id run.assigned_operator_id;
  assigned_signatory_id = chosen u.assigned_signatory_id run.assigned_signatory_id;
  assigned_payment_approver_id =
      chosen u.assigned_payment_approver_id run.assigned_payment_approver_id;
}

unfoldable pub check_operator : Store → ℕ → Option ℕ → Result (Unit {0})
unfolding same_user
check_operator s now none = ok tt
check_operator s now (some user) = do
  assert_user_authorized s user now
  require (not (is_some (live_session s) && not (same_user user s.run.assigned_operator_id)))
      Conflict.session_open

unfoldable pub update_run : Store → Caller → RunUpdate → Result Store
unfolding given assign
update_run s c u = do
  require (not (in_terminal_run_statuses s.run.status)) Conflict.terminal_run
  _ ← found s.portal Error.not_found
  check_operator s c.now (given u.assigned_operator_id)
  ok (audited portal_run_updated (invalidate_snapshot (record s { run = assign u s.run })))

is_startable : PortalRunStatus → Bool
is_startable PortalRunStatus.ready = true
is_startable PortalRunStatus.waiting_operator = true
is_startable _ = false

is_prepare_only : AutomationLevel → Bool
is_prepare_only AutomationLevel.prepare_only = true
is_prepare_only _ = false

unfoldable pub mark_started : ℕ → PortalRun → PortalRun
mark_started now run = record run { started_at = or_else run.started_at (some now) }

unfoldable pub start_owned : Store → Caller → Option ℕ → Result Store
start_owned s c none = ok (in_status PortalRunStatus.waiting_operator s)
start_owned s c (some operator) = do
  assert_actor_is_user s c operator
  assert_user_authorized s operator c.now
  let s' = record s { run = mark_started c.now s.run }
  ok (audited portal_run_started (in_status PortalRunStatus.waiting_operator s'))

unfoldable pub start_assisted : Settings → Store → Caller → Result Store
start_assisted settings s c = do
  require (settings.portal_automation_enabled && settings.browser_automation_enabled)
      Conflict.disabled
  start_owned s c s.run.assigned_operator_id

unfoldable pub start_governed : Settings → Store → Caller → Bool → Result Store
start_governed settings s c true = ok (in_status PortalRunStatus.waiting_operator s)
start_governed settings s c false = start_assisted settings s c

unfoldable pub start : Settings → Store → Caller → Result Store
unfolding is_startable is_prepare_only
start settings s c = do
  require (is_startable s.run.status) Conflict.run_not_ready
  _ ← revalidate_governance s c.now
  start_governed settings s c (is_prepare_only s.run.automation_level)

unfoldable pub pause : Store → Result Store
pause s = do
  require (not (in_terminal_run_statuses s.run.status)) Conflict.terminal_pause
  ok (audited portal_run_paused (in_status PortalRunStatus.blocked s))

-- `adapter.supported_routes.get(route_key)`, if it is a dict whose url is a text.
reviewed_route : Option PortalAdapterVersion → String → Bool
reviewed_route none key = false
reviewed_route (some a) key = elim (get_field key a.supported_routes) [
  | some (object fs) ↦ elim (get_field "url" fs) [ some (text u) ↦ true | _ ↦ false ]
  | _ ↦ false
]

unfoldable pub queue_navigation :
    (upper : String → String)
    → Store
    → Caller
    → (route_key : String) (request_id : ℕ) → Result Store
unfolding reviewed_route
queue_navigation upper s c route_key request_id = do
  (portal, review) ← revalidate_governance s c.now
  operator ← present s.run.assigned_operator_id Conflict.no_operator
  assert_actor_is_user s c operator
  granted_or (
      action_is_allowed upper "NAVIGATE" (known s.run.automation_level)
        (known portal.approved_automation_level) review.allowed_actions review.prohibited_actions
        false)
  _ ← present s.run.portal_adapter_version_id Conflict.no_adapter
  require (reviewed_route s.adapter route_key) Conflict.route_not_reviewed
  session ← active_browser_session s c
  ok (enqueue (JobKey.navigate session.id route_key request_id) session.id 2 s)

unfoldable pub queue_validation : (upper : String → String) → Store → Caller → Result Store
queue_validation upper s c = do
  (portal, review) ← revalidate_governance s c.now
  granted_or (
      action_is_allowed upper "VALIDATE" (known s.run.automation_level)
        (known portal.approved_automation_level) review.allowed_actions review.prohibited_actions
        false)
  session ← active_browser_session s c
  ok (enqueue (JobKey.validation c.fresh) session.id 2 s)

unfoldable pub check_resumer : Store → Caller → Option ℕ → Result (Unit {0})
check_resumer s c none = ok tt
check_resumer s c (some operator) = assert_actor_is_user s c operator

unfoldable pub resume_with : Store → Caller → Option BrowserSession → Store
resume_with s c none = in_status PortalRunStatus.waiting_operator s
resume_with s c (some b) =
    enqueue (JobKey.resume c.fresh) b.id 1 (in_status PortalRunStatus.session_active s)

unfoldable pub resume : Store → Caller → Result Store
resume s c = do
  require (is_blocked s.run.status) Conflict.not_blocked
  _ ← revalidate_governance s c.now
  check_resumer s c s.run.assigned_operator_id
  ok (resume_with s c (live_session s))

close_all : List BrowserSession → List PortalJob → List PortalJob
close_all [] jobs = jobs
close_all (b ∷ bs) jobs = close_all bs (add_job (JobKey.close_session b.id) b.id 3 jobs)

unfoldable pub close_sessions : Store → Store
unfolding close_all
close_sessions s = record s { jobs = close_all (select is_live s.sessions) s.jobs }

unfoldable pub mark_completed : ℕ → Store → Store
mark_completed now s = record s { run = record s.run { completed_at = some now } }

unfoldable pub cancel : Store → Caller → Result Store
cancel s c = do
  require (not (is_submitted s.run.status)) Conflict.submitted_cancel
  let s' = in_status PortalRunStatus.cancelled (mark_completed c.now s)
  ok (audited portal_run_cancelled (close_sessions (cancel_pending_for_run s')))

or_default : Option String → String → String
or_default none d = d
or_default (some t) d = t

take_messages : ℕ → List RawMessage → List RawMessage
take_messages zero ms = []
take_messages (suc n) [] = []
take_messages (suc n) (m ∷ ms) = m ∷ take_messages n ms

-- `str(message["field_key"])[:120] if message.get("field_key") else None`
safe_key : Option String → Option String
safe_key none = none
safe_key (some k) = if text_true k then some (truncate 120 k) else none

module _ (redact_emails redact_numbers : String → String) where
  unfoldable pub sanitize_portal_message : String → String
  sanitize_portal_message message = truncate 1000 (redact_numbers (redact_emails message))

  unfoldable pub safe_message : RawMessage → PortalMessage
  unfolding or_default safe_key sanitize_portal_message
  safe_message m = record {
    code = truncate 120 (or_default m.code "PORTAL_VALIDATION");
    category = truncate 120 (or_default m.category "GENERAL");
    message = sanitize_portal_message m.message;
    blocking = elim m.blocking [ none ↦ true | some b ↦ b ];
    field_key = safe_key m.field_key;
  }

  unfoldable pub capture_validation :
      Store → (messages : List RawMessage) (observed_page_category : String) → Result Store
  unfolding take_messages
  capture_validation s messages page =
      let safe = map safe_message (take_messages 200 messages) in
      let s' = add_step PortalStepType.validation (some page) safe (invalidate_snapshot s) in
      ok (
        in_status
          (if any (λ m. m.blocking) safe
            then PortalRunStatus.discrepancies_found
            else PortalRunStatus.ready_for_pre_submission_review)
          s')
