-- ===== src/Portals/Handoffs.antt =====
-- The handoffs to a human: `create_handoff`, `accept_handoff`, `request_handoff_completion` and
-- `decline_handoff` of app/services/portal_session_service.py. A call that returns a row that is
-- already there does not commit, so it changes nothing.
use astra_licensing_graph.Prelude.{
  ℕ, Bool, true, false, not, ◌&&◌, Option, none, some, List, ◌∷◌, map, String, if◌then◌else◌, ◌==◌,
  leb, find_first, or_else, truncate,
}
use astra_licensing_graph.Portals.Vocabulary.{
  BrowserSessionStatus, HandoffStatus, HandoffType, PortalRunStatus, is_active, is_open_handoff,
  is_requested,
}
use astra_licensing_graph.Portals.Rows.{
  BrowserSession, Caller, HumanHandoff, JobKey, PortalRun, Store, handoff_accepted,
  handoff_completion_requested, handoff_requested,
}
use astra_licensing_graph.Portals.Results.{
  Conflict, Error, Result, found, kept, ok, present, require, ◌>>=◌, ◌>>◌,
}
use astra_licensing_graph.Portals.Governance.{
  assert_actor_is_user, audited, enqueue, in_status, live_session, revalidate_governance,
}
use astra_licensing_graph.Portals.Sessions.{commit_sessions, session_by_id, under}

abbrev pub put_handoff : HumanHandoff → List HumanHandoff → List HumanHandoff
put_handoff row = map (λ r. if r.id == row.id then row else r)

unfoldable pub handoff_by_id : ℕ → Store → Option HumanHandoff
handoff_by_id i s = find_first (λ r. r.id == i) s.handoffs

-- `_RUN_STATUS_FOR_HANDOFF`
unfoldable pub run_status_for_handoff : HandoffType → PortalRunStatus
run_status_for_handoff HandoffType.login = PortalRunStatus.waiting_login
run_status_for_handoff HandoffType.terms_acceptance = PortalRunStatus.waiting_terms_acceptance
run_status_for_handoff HandoffType.mfa = PortalRunStatus.waiting_mfa
run_status_for_handoff HandoffType.captcha = PortalRunStatus.waiting_captcha
run_status_for_handoff HandoffType.attestation = PortalRunStatus.waiting_attestation
run_status_for_handoff HandoffType.signature = PortalRunStatus.waiting_signature
run_status_for_handoff HandoffType.payment = PortalRunStatus.waiting_payment
run_status_for_handoff HandoffType.final_submit = PortalRunStatus.waiting_final_submit
run_status_for_handoff HandoffType.unexpected_page = PortalRunStatus.failed_review
run_status_for_handoff HandoffType.portal_error = PortalRunStatus.blocked
run_status_for_handoff HandoffType.sensitive_field = PortalRunStatus.blocked

unfoldable pub same_type : HandoffType → HandoffType → Bool
same_type HandoffType.login HandoffType.login = true
same_type HandoffType.terms_acceptance HandoffType.terms_acceptance = true
same_type HandoffType.mfa HandoffType.mfa = true
same_type HandoffType.captcha HandoffType.captcha = true
same_type HandoffType.sensitive_field HandoffType.sensitive_field = true
same_type HandoffType.attestation HandoffType.attestation = true
same_type HandoffType.signature HandoffType.signature = true
same_type HandoffType.payment HandoffType.payment = true
same_type HandoffType.final_submit HandoffType.final_submit = true
same_type HandoffType.unexpected_page HandoffType.unexpected_page = true
same_type HandoffType.portal_error HandoffType.portal_error = true
same_type _ _ = false

-- The handoffs with a workflow of their own.
unfoldable pub is_dedicated : HandoffType → Bool
is_dedicated HandoffType.attestation = true
is_dedicated HandoffType.signature = true
is_dedicated HandoffType.payment = true
is_dedicated HandoffType.final_submit = true
is_dedicated _ = false

default_handoff_user : PortalRun → HandoffType → Option ℕ
default_handoff_user run HandoffType.attestation = run.assigned_signatory_id
default_handoff_user run HandoffType.signature = run.assigned_signatory_id
default_handoff_user run HandoffType.payment = run.assigned_payment_approver_id
default_handoff_user run _ = run.assigned_operator_id

session_id_of : Option BrowserSession → Option ℕ
session_id_of none = none
session_id_of (some b) = some b.id

-- A session of the target stays; that of another user is paused, and the handoff has none.
unfoldable pub owned_session : Store → (target : ℕ) → BrowserSession → Option ℕ × Store
owned_session s target b =
    if b.operator_user_id == target
    then (some b.id, s)
    else (none, enqueue (JobKey.owner_change b.id) b.id 1 (under BrowserSessionStatus.paused b s))

unfoldable pub handoff_session : Store → (target : ℕ) → Option ℕ → Result (Option ℕ × Store)
handoff_session s target none = ok (none, s)
handoff_session s target (some i) = do
  b ← present (session_by_id i s) Conflict.session_of_other_run
  ok (owned_session s target b)

unfoldable pub open_handoff : Store → HandoffType → Option HumanHandoff
open_handoff s t =
    find_first (λ h. same_type h.handoff_type t && is_open_handoff h.status) s.handoffs

unfoldable pub add_handoff : HandoffType → Option ℕ → ℕ → Caller → Option ℕ → Store → Store
add_handoff t expires_at target c session s = audited (handoff_requested c.fresh) (
    in_status (run_status_for_handoff t) (record s {
      handoffs =
          (record {
            id = c.fresh;
            handoff_type = t;
            status = HandoffStatus.requested;
            browser_session_id = session;
            requested_from_user_id = some target;
            expires_at = expires_at;
            result = none;
          })
          ∷ s.handoffs;
    }))

-- A handoff of the type that is still open is returned as it is.
unfoldable pub ensure_handoff :
    Store → HandoffType → Option ℕ → ℕ → Caller → Option ℕ × Store → Option HumanHandoff → Store
ensure_handoff s t expires_at target c (session, s') (some h) = s
ensure_handoff s t expires_at target c (session, s') none =
    add_handoff t expires_at target c session s'

unfoldable pub create_handoff :
    Store → Caller → HandoffType → (requested_from expires_at session_id : Option ℕ) → Result Store
unfolding default_handoff_user session_id_of
create_handoff s c t requested_from expires_at session_id = do
  _ ← revalidate_governance s c.now
  target ← present (or_else requested_from (default_handoff_user s.run t)) Conflict.no_target
  _ ← found (find_first (λ p. p.id == target) s.principals) Error.not_found
  owned ← handoff_session s target (or_else session_id (session_id_of (live_session s)))
  commit_sessions (ensure_handoff s t expires_at target c owned (open_handoff s t))

unfoldable pub is_lapsed : ℕ → Option ℕ → Bool
is_lapsed now none = false
is_lapsed now (some t) = leb t now

-- A handoff may only use a session of the user that it is asked of.
unfoldable pub control_session : Store → (user : ℕ) → Option ℕ → Result Store
control_session s user none = ok s
control_session s user (some i) = do
  b ← found (session_by_id i s) Error.not_found
  require (b.operator_user_id == user) Conflict.foreign_session
  ok (under BrowserSessionStatus.active_human_control b s)

unfoldable pub with_handoff : HumanHandoff → Store → Store
with_handoff h s = record s { handoffs = put_handoff h s.handoffs }

-- An expired handoff is marked and committed before the call raises.
unfoldable pub refuse_expired : Store → ℕ → HumanHandoff → Result (Unit {0})
refuse_expired s now h =
    if is_lapsed now h.expires_at
    then kept (Error.state_conflict Conflict.handoff_expired)
        (with_handoff (record h { status = HandoffStatus.expired }) s)
    else ok tt

unfoldable pub accept_handoff : Store → Caller → (handoff_id : ℕ) → Result Store
accept_handoff s c handoff_id = do
  h ← found (handoff_by_id handoff_id s) Error.not_found
  require (is_requested h.status) Conflict.handoff_not_requested
  refuse_expired s c.now h
  user ← present h.requested_from_user_id Conflict.handoff_unassigned
  assert_actor_is_user s c user
  s' ← control_session s user h.browser_session_id
  commit_sessions (
      audited (handoff_accepted h.id)
        (with_handoff (record h { status = HandoffStatus.active }) s'))

unfoldable pub request_handoff_completion :
    Store → Caller → (handoff_id : ℕ) (result : String) → Result Store
request_handoff_completion s c handoff_id result = do
  h ← found (handoff_by_id handoff_id s) Error.not_found
  require (is_active h.status) Conflict.handoff_not_active
  user ← present h.requested_from_user_id Conflict.handoff_unassigned
  assert_actor_is_user s c user
  require (not (is_dedicated h.handoff_type)) Conflict.dedicated_workflow
  session ← present h.browser_session_id Conflict.no_isolated_session
  let s' = with_handoff (record h { result = some (truncate 120 result) }) s
  ok (
      audited (handoff_completion_requested h.id)
        (enqueue (JobKey.handoff_verify h.id c.fresh) session 1 s'))

is_declinable : HandoffStatus → Bool
is_declinable HandoffStatus.requested = true
is_declinable HandoffStatus.active = true
is_declinable _ = false

unfoldable pub check_decliner : Store → Caller → Option ℕ → Result (Unit {0})
check_decliner s c none = ok tt
check_decliner s c (some user) = assert_actor_is_user s c user

unfoldable pub decline_handoff : Store → Caller → (handoff_id : ℕ) (reason : String) → Result Store
unfolding is_declinable
decline_handoff s c handoff_id reason = do
  h ← found (handoff_by_id handoff_id s) Error.not_found
  require (is_declinable h.status) Conflict.handoff_not_declinable
  check_decliner s c h.requested_from_user_id
  let h' = record h { status = HandoffStatus.declined; result = some (truncate 120 reason) }
  ok (in_status PortalRunStatus.blocked (with_handoff h' s))
