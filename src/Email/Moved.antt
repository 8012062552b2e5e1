-- ===== src/Email/Moved.antt =====
-- What a written call of `transition_email_state` of app/services/email_state.py adds to each table.
use astra_licensing_graph.Prelude.{
  ◌≡◌, refl, ◌≢◌, ◌⊎◌, inl, inr, ℕ, true, false, some, none, ◌∷◌, arith, Bool-cases,
}
use astra_licensing_graph.Email.States.{
  ProcessingState, classified, completed, failed_retryable, failed_review, is_significant, position,
  task_created, elem, is_state, pipeline_failures, significant_states,
}
use astra_licensing_graph.Email.Legal.{Legal}
use astra_licensing_graph.Email.Service.{
  AuditEvent, Call, Database, Email, OutboxEvent, ProcessingEvent, audit_event, mark_failed,
  mark_moved, is_failure, move_email, outbox_event, processing_event, stamp, write,
}
use astra_licensing_graph.Email.Pipeline.{move_email-state}

-- The states that other systems are told of.
abbrev pub IsTold : ProcessingState → Type 0
IsTold t = (t ≡ classified) ⊎ ((t ≡ task_created) ⊎ ((t ≡ completed) ⊎ (t ≡ failed_review)))

-- The new row of an email: in the target state, with the errors of the call after a failure, and
-- with neither errors nor a state to resume at otherwise.
pub record IsRow (email row : Email) (c : Call) : Type 0 where
  pub state : row.processing_state ≡ c.target_state
  pub mailbox : row.mailbox_id ≡ email.mailbox_id
  pub errors :
      (((c.target_state ≡ failed_retryable) ⊎ (c.target_state ≡ failed_review))
        × (row.last_error_code ≡ c.error_code)
        × (row.last_error_message ≡ c.error_message))
      ⊎ ((row.resume_state ≡ none) × (row.last_error_code ≡ none) × (row.last_error_message ≡ none))

pub record IsMoved (db db' : Database) (c : Call) : Type 0 where
  pub email : Email
  pub here : db.emails c.email_id ≡ some email
  pub legal : Legal email.resume_state c.manual_reset email.processing_state c.target_state
  pub expected :
      (c.expected_current_state ≡ none) ⊎ (c.expected_current_state ≡ some email.processing_state)
  pub row : Email
  pub stored : db'.emails c.email_id ≡ some row
  pub moved : IsRow email row c
  pub others : (j : ℕ) → j ≢ c.email_id → db'.emails j ≡ db.emails j
  pub event : ProcessingEvent
  pub logged : db'.events ≡ event ∷ db.events
  pub event_of : (event.id ≡ c.new_event_id) × (event.email_id ≡ c.email_id)
  pub event_from : event.from_state ≡ email.processing_state
  pub event_to : event.to_state ≡ c.target_state
  pub audit : AuditEvent
  pub audited : db'.audits ≡ audit ∷ db.audits
  pub audit_of : (audit.actor ≡ c.actor) × (audit.entity_id ≡ c.email_id)
  pub audit_before : audit.before_state ≡ email.processing_state
  pub audit_after : audit.after_state ≡ c.target_state
  pub told :
      (IsTold c.target_state
        × ((o : OutboxEvent) × (db'.outbox ≡ o ∷ db.outbox)
            × (o.aggregate_id ≡ c.email_id)
            × (o.mailbox_id ≡ email.mailbox_id)
            × (o.from_state ≡ email.processing_state)
            × (o.to_state ≡ c.target_state)
            × (o.idempotency_key ≡ (c.email_id, c.new_event_id))))
      ⊎ ((¬ IsTold c.target_state) × (db'.outbox ≡ db.outbox))

move_email-IsRow : (email : Email) (c : Call) → IsRow email (move_email email c) c
unfolding move_email mark_failed mark_moved stamp pipeline_failures elem is_state position
move_email-IsRow email c = record {
  state = move_email-state email c;
  mailbox = ground arith;
  errors = elim (Bool-cases (is_failure c.target_state)) [
    | inl failed ↦ inl (ground arith, ground arith, ground arith)
    | inr other ↦ inr (ground arith, ground arith, ground arith)
  ];
}

significant-IsTold : (t : ProcessingState) → is_significant t ≡ true → IsTold t
unfolding is_significant significant_states elem is_state position
significant-IsTold classified h = inl refl
significant-IsTold task_created h = inr (inl refl)
significant-IsTold completed h = inr (inr (inl refl))
significant-IsTold failed_review h = inr (inr (inr refl))
significant-IsTold _ h = absurd (cc)

untold : (t : ProcessingState) → is_significant t ≡ false → ¬ IsTold t
unfolding is_significant significant_states elem is_state position
untold t h (inl e) = cc (rw e at h)
untold t h (inr (inl e)) = cc (rw e at h)
untold t h (inr (inr (inl e))) = cc (rw e at h)
untold t h (inr (inr (inr e))) = cc (rw e at h)

pub write-IsMoved :
    (db : Database) (email : Email) (c : Call)
    → db.emails c.email_id ≡ some email
    → Legal email.resume_state c.manual_reset email.processing_state c.target_state
    → (c.expected_current_state ≡ none) ⊎ (c.expected_current_state ≡ some email.processing_state)
    → IsMoved db (write db email c) c
unfolding write processing_event audit_event outbox_event
write-IsMoved db email c here legal expected = record {
  email = email;
  here = here;
  legal = legal;
  expected = expected;
  row = move_email email c;
  stored = ground arith;
  moved = move_email-IsRow email c;
  others = λ j ne. ground arith;
  event = processing_event email c;
  logged = refl;
  event_of = (refl, refl);
  event_from = refl;
  event_to = refl;
  audit = audit_event email c;
  audited = refl;
  audit_of = (refl, refl);
  audit_before = refl;
  audit_after = refl;
  told = elim (Bool-cases (is_significant c.target_state)) [
    | inl yes_told ↦ rw yes_told (
        inl (
          significant-IsTold c.target_state yes_told,
          (outbox_event email c, refl, refl, refl, refl, refl, refl),
        ))
    | inr not_told ↦ rw not_told (inr (untold c.target_state not_told, refl))
  ];
}
