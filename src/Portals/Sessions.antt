-- ===== src/Portals/Sessions.antt =====
-- The operator's browser session: `request_session`, `take_control`, `return_control` and `close` of
-- app/services/portal_session_service.py, with the unique index of app/models/portal.py on the
-- session of a run that is in use.
use astra_licensing_graph.Prelude.{
  ℕ, ◌+◌, ◌*◌, Bool, false, not, ◌&&◌, Option, none, some, List, ◌∷◌, map, if◌then◌else◌, ◌==◌, leb,
  any, find_first, length, select,
}
use astra_licensing_graph.Portals.Vocabulary.{
  BrowserSessionStatus, PortalRunStatus, in_terminal_run_statuses, is_active_automation,
  is_human_control, is_open_handoff, is_waiting_operator,
}
use astra_licensing_graph.Portals.Rows.{
  BrowserSession, Caller, JobKey, Settings, Store, browser_control_taken, browser_session_requested,
}
use astra_licensing_graph.Portals.Results.{
  Conflict, Error, Result, err, found, ok, present, require, ◌>>=◌, ◌>>◌,
}
use astra_licensing_graph.Portals.Governance.{
  assert_actor_is_user, assert_user_authorized, audited, enqueue, in_status, is_live,
  operator_session, revalidate_governance,
}

abbrev pub put_session : BrowserSession → List BrowserSession → List BrowserSession
put_session row = map (λ r. if r.id == row.id then row else r)

unfoldable pub session_by_id : ℕ → Store → Option BrowserSession
session_by_id i s = find_first (λ r. r.id == i) s.sessions

abbrev pub new_session : Settings → Caller → ℕ → BrowserSession
new_session settings c operator = record {
  id = c.fresh;
  operator_user_id = operator;
  session_status = BrowserSessionStatus.requested;
  expires_at = c.now + 60 * settings.browser_session_max_minutes;
}

-- The unique index on the session of a run that is in use.
unfoldable pub live_count : List BrowserSession → ℕ
live_count bs = length (select is_live bs)

-- The commit of sessions that were changed.
unfoldable pub commit_sessions : Store → Result Store
commit_sessions s = if leb (live_count s.sessions) 1 then ok s else err Error.integrity

unfoldable pub add_session : Store → BrowserSession → Result Store
add_session s b = commit_sessions (
    audited (browser_session_requested b.id)
      (enqueue (JobKey.session_start b.id) b.id 3 (record s { sessions = b ∷ s.sessions })))

unfoldable pub ensure_session : Settings → Store → Caller → ℕ → Option BrowserSession → Result Store
ensure_session settings s c operator (some b) = ok s
ensure_session settings s c operator none = add_session s (new_session settings c operator)

unfoldable pub request_session : Settings → Store → Caller → Result Store
request_session settings s c = do
  _ ← revalidate_governance s c.now
  require (settings.portal_automation_enabled && settings.browser_automation_enabled)
      Conflict.automation_unavailable
  require (is_waiting_operator s.run.status) Conflict.run_not_started
  operator ← present s.run.assigned_operator_id Conflict.no_operator
  assert_actor_is_user s c operator
  assert_user_authorized s operator c.now
  ensure_session settings s c operator (operator_session s operator)

unfoldable pub under : BrowserSessionStatus → BrowserSession → Store → Store
under st b s = record s { sessions = put_session (record b { session_status = st }) s.sessions }

unfoldable pub take_control : Store → Caller → (session_id : ℕ) → Result Store
take_control s c session_id = do
  b ← found (session_by_id session_id s) Error.not_found
  assert_actor_is_user s c b.operator_user_id
  require (is_active_automation b.session_status) Conflict.automation_unavailable
  require (not (leb b.expires_at c.now)) Conflict.session_expired
  ok (audited (browser_control_taken b.id) (under BrowserSessionStatus.active_human_control b s))

names_session : ℕ → Option ℕ → Bool
names_session i none = false
names_session i (some j) = i == j

unfoldable pub return_control : Store → Caller → (session_id : ℕ) → Result Store
unfolding names_session
return_control s c session_id = do
  b ← found (session_by_id session_id s) Error.not_found
  assert_actor_is_user s c b.operator_user_id
  require (is_human_control b.session_status) Conflict.control_inactive
  require
      (not
        (any (λ h. names_session b.id h.browser_session_id && is_open_handoff h.status) s.handoffs))
      Conflict.handoff_open
  ok (under BrowserSessionStatus.active_automation b s)

unfoldable pub close : Store → Caller → (session_id : ℕ) → Result Store
close s c session_id = do
  b ← found (session_by_id session_id s) Error.not_found
  assert_actor_is_user s c b.operator_user_id
  let s' = under BrowserSessionStatus.paused b (enqueue (JobKey.close_session b.id) b.id 3 s)
  commit_sessions (
      if in_terminal_run_statuses s.run.status
      then s'
      else in_status PortalRunStatus.waiting_operator s')
