-- ===== src/Email/Service.antt =====
-- `transition_email_state` of app/services/email_state.py: one database transaction over the row of
-- the email, the event log, the audit log and the outbox. Ids are numbers; the id of the new event
-- and the clock are arguments.
use astra_licensing_graph.Prelude.{
  ℕ, Bool, not, ◌&&◌, Option, none, some, List, ◌∷◌, String, Fields, end, ◌==◌, if◌then◌else◌, ◌+◌,
  is_some,
}
use astra_licensing_graph.Email.States.{
  ProcessingState, failed_retryable, fetched, completed, is_state, elem, pipeline_failures, Refusal,
  validate_transition, is_significant,
}

pub data ActorType : Type 0 where
  human system import_ : ActorType

pub record Actor : Type 0 where
  pub actor_type : ActorType
  pub actor_id : String

pub record Email : Type 0 where
  pub mailbox_id : ℕ
  pub processing_state : ProcessingState
  pub resume_state : Option ProcessingState
  pub last_error_code : Option String
  pub last_error_message : Option String
  pub retry_count : ℕ
  pub next_retry_at : Option ℕ
  pub fetched_at : Option ℕ
  pub completed_at : Option ℕ

pub record ProcessingEvent : Type 0 where
  pub id : ℕ
  pub email_id : ℕ
  pub from_state : ProcessingState
  pub to_state : ProcessingState
  pub event_type : String
  pub note : Option String
  pub error_code : Option String
  pub error_message : Option String
  pub event_metadata : Fields
  pub occurred_at : ℕ

pub record AuditEvent : Type 0 where
  pub actor : Actor
  pub entity_id : ℕ
  pub before_state : ProcessingState
  pub after_state : ProcessingState
  pub event_metadata : Fields
  pub occurred_at : ℕ

-- The idempotency key is the pair of the email's id and the event's id.
pub record OutboxEvent : Type 0 where
  pub aggregate_id : ℕ
  pub mailbox_id : ℕ
  pub from_state : ProcessingState
  pub to_state : ProcessingState
  pub idempotency_key : ℕ × ℕ
  pub available_at : ℕ

-- The logs have the newest row first.
pub record Database : Type 0 where
  pub emails : ℕ → Option Email
  pub events : List ProcessingEvent
  pub audits : List AuditEvent
  pub outbox : List OutboxEvent

pub data Error : Type 0 where
  not_found : ℕ → Error
  state_conflict : (current expected : ProcessingState) → Error
  invalid_state_transition : Refusal → Error

pub data Result (A : Type 0) : Type 0 where
  ok : A → Result A
  err : Error → Result A

pub record Call : Type 0 where
  pub email_id : ℕ
  pub target_state : ProcessingState
  pub actor : Actor
  pub note : Option String
  pub error_code : Option String
  pub error_message : Option String
  pub metadata : Option Fields
  pub expected_current_state : Option ProcessingState
  pub manual_reset : Bool
  pub event_type : String
  pub new_event_id : ℕ
  pub now : ℕ

abbrev pub is_failure : ProcessingState → Bool
is_failure s = elem s pipeline_failures

metadata_of : Option Fields → Fields
metadata_of none = end
metadata_of (some m) = m

-- The columns that a failure sets, and those that any other target clears.
unfoldable pub mark_failed : Email → Call → Email
mark_failed email c = record email {
  processing_state = c.target_state;
  resume_state =
      if not (is_failure email.processing_state)
      then some email.processing_state
      else email.resume_state;
  last_error_code = c.error_code;
  last_error_message = c.error_message;
  retry_count =
      if is_state c.target_state failed_retryable then email.retry_count + 1 else email.retry_count;
}

unfoldable pub mark_moved : Email → Call → Email
mark_moved email c = record email {
  processing_state = c.target_state;
  resume_state = none;
  last_error_code = none;
  last_error_message = none;
  next_retry_at = none;
}

unfoldable pub stamp : Email → Call → Email
stamp email c = record email {
  completed_at = if is_state c.target_state completed then some c.now else email.completed_at;
  fetched_at =
      if is_state c.target_state fetched && not (is_some email.fetched_at)
      then some c.now
      else email.fetched_at;
}

unfoldable pub move_email : Email → Call → Email
unfolding mark_failed mark_moved stamp
move_email email c =
    stamp (if is_failure c.target_state then mark_failed email c else mark_moved email c) c

unfoldable pub processing_event : Email → Call → ProcessingEvent
unfolding metadata_of
processing_event email c = record {
  id = c.new_event_id;
  email_id = c.email_id;
  from_state = email.processing_state;
  to_state = c.target_state;
  event_type = c.event_type;
  note = c.note;
  error_code = c.error_code;
  error_message = c.error_message;
  event_metadata = metadata_of c.metadata;
  occurred_at = c.now;
}

unfoldable pub audit_event : Email → Call → AuditEvent
unfolding metadata_of
audit_event email c = record {
  actor = c.actor;
  entity_id = c.email_id;
  before_state = email.processing_state;
  after_state = c.target_state;
  event_metadata = metadata_of c.metadata;
  occurred_at = c.now;
}

unfoldable pub outbox_event : Email → Call → OutboxEvent
outbox_event email c = record {
  aggregate_id = c.email_id;
  mailbox_id = email.mailbox_id;
  from_state = email.processing_state;
  to_state = c.target_state;
  idempotency_key = (c.email_id, c.new_event_id);
  available_at = c.now;
}

abbrev pub update : (ℕ → Option Email) → ℕ → Email → ℕ → Option Email
update emails id email j = if j == id then some email else emails j

unfoldable pub write : Database → Email → Call → Database
write db email c = record {
  emails = update db.emails c.email_id (move_email email c);
  events = processing_event email c ∷ db.events;
  audits = audit_event email c ∷ db.audits;
  outbox = if is_significant c.target_state then outbox_event email c ∷ db.outbox else db.outbox;
}

-- `expected is not None and current != expected`
unfoldable pub conflict : ProcessingState → Option ProcessingState → Option Error
conflict current none = none
conflict current (some e) = if is_state current e then none else some (state_conflict current e)

unfoldable pub transition_row : Database → Email → Call → Result Database
unfolding conflict
transition_row db email c = elim (conflict email.processing_state c.expected_current_state) [
  | some e ↦ err e
  | none ↦
      elim (validate_transition email.processing_state c.target_state email.resume_state
        c.manual_reset) [ some r ↦ err (invalid_state_transition r) | none ↦ ok (write db email c) ]
]

unfoldable pub transition_locked : Database → Call → Result Database
transition_locked db c = elim (db.emails c.email_id) [
  | none ↦ err (not_found c.email_id)
  | some email ↦ transition_row db email c
]

-- The result, and the database after the commit or the rollback.
unfoldable pub transition_email_state : Database → Call → Option Error × Database
transition_email_state db c = elim (transition_locked db c) [
  | ok db' ↦ (none, db')
  | err e ↦ (some e, db)
]
