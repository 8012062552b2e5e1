-- ===== src/Email/Tests.antt =====
-- An email that fails in the middle of the pipeline, and the theorems at it.
use mathlib.Core.Path.{subst}
use astra_licensing_graph.Prelude.{
  ◌≡◌, refl, ◌↔◌, ◌⊎◌, true, false, none, some, List, [], ◌∷◌, arith, inl, inr, Bool-cases, ◌==◌,
  if◌then◌else◌,
}
use astra_licensing_graph.Email.States.{
  ProcessingState, discovered, fetched, attachments_saved, classified, task_created, moved,
  completed, failed_retryable, is_state, elem, pipeline_failures, allowed_transitions,
  significant_states, is_significant, validate_transition,
}
use astra_licensing_graph.Email.Legal.{Legal, IsLive, validate_transition_iff}
use astra_licensing_graph.Email.Service.{
  human, Email, Database, Call, write, conflict, move_email, processing_event, transition_row,
  transition_locked, transition_email_state, Error,
}
use astra_licensing_graph.Email.Pipeline.{IsSound}
use astra_licensing_graph.Email.Moved.{IsMoved}
use astra_licensing_graph.Email.Log.{
  run_calls, AllSound, IsLogged, run_calls-AllSound, run_calls-IsLogged, retryable_resumes,
  transition_atomic,
}

abbrev fresh_email : Email
fresh_email = record {
  mailbox_id = 1;
  processing_state = discovered;
  resume_state = none;
  last_error_code = none;
  last_error_message = none;
  retry_count = 0;
  next_retry_at = none;
  fetched_at = none;
  completed_at = none;
}

abbrev inbox : Database
inbox = record {
  emails = λ id. if id == 5 then some fresh_email else none;
  events = [];
  audits = [];
  outbox = [];
}

abbrev call : ProcessingState → Call
call target = record {
  email_id = 5;
  target_state = target;
  actor = record { actor_type = human; actor_id = "ana" };
  note = none;
  error_code = some "timeout";
  error_message = none;
  metadata = none;
  expected_current_state = none;
  manual_reset = false;
  event_type = "state_transition";
  new_event_id = 9;
  now = 40;
}

abbrev failing : List Call
failing = call fetched ∷ call completed ∷ call failed_retryable ∷ []

abbrev whole : List Call
whole =
    call fetched
    ∷ call attachments_saved
    ∷ call classified
    ∷ call classified
    ∷ call task_created
    ∷ call moved
    ∷ call completed
    ∷ []

fresh-IsSound : IsSound fresh_email
unfolding elem pipeline_failures is_state
fresh-IsSound = record {
  failed_resumable = λ h. cc;
  clear = λ h. (refl, refl, refl);
  stamped = λ h. cc;
}

inbox-AllSound : AllSound inbox
inbox-AllSound id e h = elim (Bool-cases (id == 5)) [
  | inl same ↦ subst IsSound (first same) fresh-IsSound
  | inr other ↦ absurd (missing other)
]
  where
    first : (id == 5) ≡ true → fresh_email ≡ e
    first same = let found : some fresh_email ≡ some e = ground arith in cc

    missing : (id == 5) ≡ false → ⊥
    missing other = ground arith

inbox-IsLogged : IsLogged inbox
inbox-IsLogged id e h = ground arith

program : Unit {0}
unfolding run_calls transition_email_state transition_locked transition_row conflict
    validate_transition write move_email is_significant elem pipeline_failures is_state
    allowed_transitions significant_states processing_event
program = tt

abbrev failed_email : Email
failed_email = record fresh_email {
  processing_state = failed_retryable;
  resume_state = some fetched;
  last_error_code = some "timeout";
  retry_count = 1;
  fetched_at = some 40;
}

failing_ends : (run_calls inbox failing).emails 5 ≡ some failed_email
unfolding program
failing_ends = refl

abbrev done_email : Email
done_email = record fresh_email {
  processing_state = completed;
  fetched_at = some 40;
  completed_at = some 40;
}

whole_ends : (run_calls inbox whole).emails 5 ≡ some done_email
unfolding program
whole_ends = refl

validate_transition_iff_example :
    (validate_transition failed_retryable moved (some moved) false ≡ none)
    ↔ Legal (some moved) false failed_retryable moved
validate_transition_iff_example = validate_transition_iff (some moved) false failed_retryable moved

run_calls-AllSound_example : AllSound (run_calls inbox failing)
run_calls-AllSound_example = run_calls-AllSound inbox failing inbox-AllSound

run_calls-IsLogged_example : IsLogged (run_calls inbox failing)
run_calls-IsLogged_example = run_calls-IsLogged inbox failing inbox-IsLogged

retryable_resumes_example :
    (r : ProcessingState) × IsLive r
    × ((transition_email_state
          (run_calls inbox failing)
          (record (call fetched) { target_state = r; expected_current_state = none })).0
        ≡ none)
retryable_resumes_example =
    retryable_resumes inbox failing (call fetched) failed_email inbox-AllSound failing_ends refl

transition_atomic_example :
    ((e : Error) × (transition_email_state inbox (call fetched) ≡ (some e, inbox)))
    ⊎ IsMoved inbox (transition_email_state inbox (call fetched)).1 (call fetched)
transition_atomic_example = transition_atomic inbox (call fetched)
