-- ===== src/Deadlines/Sweeps.antt =====
-- One deadline under `run_escalations` and `override_deadline` of app/services/deadline_service.py,
-- with `record_notification` of app/licensing/audit.py. The hash of a notification's parts is taken
-- to tell them apart, so a key is those parts.
use astra_licensing_graph.Prelude.{
  ℕ, Bool, true, false, not, ◌&&◌, Option, none, some, List, [], ◌∷◌, String, ◌==◌, if◌then◌else◌,
  any, is_some,
}
use astra_licensing_graph.Deadlines.Escalation.{
  EscalationLevel, DeadlineSeverity, EscalationDecision, Ladder, evaluate_escalation, level_order,
  Contacts, resolve_recipient,
}

pub data DeadlineStatus : Type 0 where
  scheduled approaching due_today overdue completed waived superseded cancelled : DeadlineStatus

-- OPEN_DEADLINE_STATUSES
unfoldable pub is_open : DeadlineStatus → Bool
is_open DeadlineStatus.scheduled = true
is_open DeadlineStatus.approaching = true
is_open DeadlineStatus.due_today = true
is_open DeadlineStatus.overdue = true
is_open _ = false

-- The side, the window and the level of a notification; a level that notifies is told by its order.
abbrev pub NotificationKey : Type 0
NotificationKey = Bool × Option ℕ × ℕ

pub record Deadline : Type 0 where
  pub due_at : ℕ
  pub status : DeadlineStatus
  pub severity : DeadlineSeverity
  pub assigned_owner : Option String
  pub backup_owner : Option String
  pub last_escalation_level : Option EscalationLevel
  pub last_escalated_at : Option ℕ
  pub manually_overridden : Bool

-- The deadline, the keys of its notifications, and the levels of its ESCALATED events, newest first.
pub record State : Type 0 where
  pub deadline : Deadline
  pub keys : List NotificationKey
  pub escalated : List EscalationLevel

-- What a sweep is told: the day, the policy's ladder, the setting and the manager.
pub record Sweep : Type 0 where
  pub now : ℕ
  pub ladder : Option Ladder
  pub overdue_enabled : Bool
  pub manager_actor : Option String

abbrev pub contacts : Deadline → Option String → Contacts
contacts d manager_actor = record {
  owner = d.assigned_owner;
  backup_owner = d.backup_owner;
  reviewer = none;
  manager = manager_actor;
  counsel = none;
  executive = none;
}

same_window : Option ℕ → Option ℕ → Bool
same_window none none = true
same_window (some a) (some b) = a == b
same_window _ _ = false

same_side : Bool → Bool → Bool
same_side true b = b
same_side false b = not b

unfoldable pub same_key : NotificationKey → NotificationKey → Bool
unfolding same_window same_side
same_key (a, w, l) (b, v, m) = same_side a b && same_window w v && l == m

-- `record_notification`: whether the key is new, with the keys after the call.
unfoldable pub record_notification :
    List NotificationKey → NotificationKey → Bool × List NotificationKey
record_notification keys k = if any (same_key k) keys then (false, keys) else (true, k ∷ keys)

unfoldable pub escalate : State → Sweep → EscalationDecision → EscalationLevel → State
escalate st s d level =
    let (fresh, keys') =
      record_notification st.keys (d.is_overdue, d.window_days, level_order level) in
    if fresh
    then record {
      deadline = record st.deadline {
        last_escalation_level = some level;
        last_escalated_at = some s.now;
        severity = d.severity;
      };
      keys = keys';
      escalated = level ∷ st.escalated;
    }
    else st

-- The deadline's turn in the loop.
unfoldable pub sweep : State → Sweep → State
sweep st s =
    let dl = st.deadline in
    let d =
      evaluate_escalation dl.due_at s.now dl.last_escalation_level s.ladder none
        s.overdue_enabled in
    if is_open dl.status && d.should_notify
    then elim d.level [
      | none ↦ st
      | some level ↦ elim (resolve_recipient level (contacts dl s.manager_actor)) [
        | none ↦ st
        | some recipient ↦ escalate st s d level
      ]
    ]
    else st

unfoldable pub reschedule : Deadline → Option (ℕ × DeadlineStatus) → Deadline
reschedule dl none = dl
reschedule dl (some (due, status)) = record dl {
  due_at = due;
  status = status;
  manually_overridden = true;
}

-- `override_deadline` with an accepted reason; `classify_status` gives the new status.
unfoldable pub override_deadline : State → Option (ℕ × DeadlineStatus) → Option String → State
unfolding reschedule
override_deadline st new_due owner =
    let dl = reschedule st.deadline new_due in
    record st {
      deadline = record dl { assigned_owner = if is_some owner then owner else dl.assigned_owner };
    }

-- `refresh_statuses`, with the status that `classify_status` gives.
unfoldable pub refresh_status : State → DeadlineStatus → State
refresh_status st fresh =
    if is_open st.deadline.status
    then record st { deadline = record st.deadline { status = fresh } }
    else st

pub data Action : Type 0 where
  swept : Sweep → Action
  overridden : Option (ℕ × DeadlineStatus) → Option String → Action
  refreshed : DeadlineStatus → Action

unfoldable pub act : State → Action → State
act st (swept s) = sweep st s
act st (overridden new_due owner) = override_deadline st new_due owner
act st (refreshed fresh) = refresh_status st fresh

unfoldable pub run : State → List Action → State
run st [] = st
run st (a ∷ rest) = run (act st a) rest
