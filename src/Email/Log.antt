-- ===== src/Email/Log.antt =====
-- Any sequence of calls of `transition_email_state` of app/services/email_state.py.
use mathlib.Core.Path.{subst}
use astra_licensing_graph.Prelude.{
  some-inj, ◌≡◌, refl, ap, ◌∙◌, ◌≢◌, ◌⊎◌, inl, inr, ℕ, Bool, true, Option, none, some, List, [],
  ◌∷◌, arith, Option-cases, Bool-cases, if◌then◌else◌, ◌==◌,
}
use astra_licensing_graph.Email.States.{
  ProcessingState, discovered, completed, failed_retryable, is_state, elem, pipeline_failures,
  validate_transition,
}
use astra_licensing_graph.Email.Legal.{IsLive, validate_transition_iff}
use astra_licensing_graph.Email.Service.{
  Email, Database, ProcessingEvent, Call, Error, move_email, processing_event, write,
  transition_row, transition_locked, transition_email_state,
}
use astra_licensing_graph.Email.Moved.{IsMoved, write-IsMoved}
use astra_licensing_graph.Email.Pipeline.{
  IsSound, Written, Written-of, move_email-IsSound, move_email-state,
}

unfoldable pub run_calls : Database → List Call → Database
run_calls db [] = db
run_calls db (c ∷ cs) = run_calls (transition_email_state db c).1 cs

outcome_done :
    (db : Database) (c : Call)
    → (transition_email_state db c).0 ≡ none
    → transition_email_state db c ≡ (none, (transition_email_state db c).1)
outcome_done db c h = λ i. (h i, (transition_email_state db c).1)

outcome_raised :
    (db : Database) (c : Call) (e : Error)
    → (transition_email_state db c).0 ≡ some e
    → transition_email_state db c ≡ (some e, db)
unfolding transition_email_state
outcome_raised db c e h = ground arith

-- A call either raised and changed nothing, or was written.
call-cases :
    (db : Database) (c : Call)
    → ((e : Error) × (transition_email_state db c ≡ (some e, db)))
      ⊎ Written db (transition_email_state db c).1 c
call-cases db c = elim (Option-cases (transition_email_state db c).0) [
  | inl done ↦ inr (Written-of db _ c (outcome_done db c done))
  | inr (e, raised) ↦ inl (e, outcome_raised db c e raised)
]

-- A call either raises and leaves the whole database as it was, or makes a legal move from the
-- state that the caller expected, if it named one: it stores the row of its email in the target
-- state, with the call's errors after a failure and with neither errors nor a state to resume at
-- otherwise; it adds one event and one audit row, each with the state that the email had and with
-- the target; it adds an outbox row with both states exactly when the target is CLASSIFIED,
-- TASK_CREATED, COMPLETED or FAILED_REVIEW; and it leaves every other email as it was.
pub transition_atomic :
    (db : Database) (c : Call)
    → ((e : Error) × (transition_email_state db c ≡ (some e, db)))
      ⊎ IsMoved db (transition_email_state db c).1 c
transition_atomic db c = elim (call-cases db c) [
  | inl raised ↦ inl raised
  | inr w ↦ inr (
      rw w.after (
        write-IsMoved db w.email c w.found ((validate_transition_iff _ _ _ _).0 w.legal)
          w.expected))
]

abbrev pub AllSound : Database → Type 0
AllSound db = (id : ℕ) (e : Email) → db.emails id ≡ some e → IsSound e

-- The state that the event log gives an email: that of its newest event.
abbrev pub replay : ℕ → List ProcessingEvent → ProcessingState
replay id [] = discovered
replay id (ev ∷ evs) = let older = replay id evs in if ev.email_id == id then ev.to_state else older

abbrev pub IsLogged : Database → Type 0
IsLogged db =
    (id : ℕ) (e : Email) → db.emails id ≡ some e → replay id db.events ≡ e.processing_state

write-AllSound :
    (db : Database) (c : Call) (w : Written db (transition_email_state db c).1 c)
    → AllSound db
    → AllSound (write db w.email c)
unfolding write
write-AllSound db c w v id e h = elim (Bool-cases (id == c.email_id)) [
  | inl same ↦
      subst IsSound (some-inj (moved same))
        (move_email-IsSound w.email c (v c.email_id w.email w.found) w.legal)
  | inr other ↦ v id e (ground arith)
]
  where
    moved : (id == c.email_id) ≡ true → some (move_email w.email c) ≡ some e
    moved same = ground arith

write-IsLogged :
    (db : Database) (c : Call) (w : Written db (transition_email_state db c).1 c)
    → IsLogged db
    → IsLogged (write db w.email c)
unfolding write processing_event
write-IsLogged db c w v id e h = elim (Bool-cases (id == c.email_id)) [
  | inl same ↦
      let moved : some (move_email w.email c) ≡ some e = ground arith in
      let state = ap (λ (x : Email). x.processing_state) (some-inj moved) in
      ground (arith, state, move_email-state w.email c)
  | inr other ↦ ground (arith, v id e)
]

call-keeps :
    (P : Database → Type 0) (db : Database) (c : Call)
    → ((w : Written db (transition_email_state db c).1 c) → P db → P (write db w.email c))
    → P db
    → P (transition_email_state db c).1
call-keeps P db c keep p = elim (call-cases db c) [
  | inl (e, raised) ↦ rw raised p
  | inr w ↦ rw w.after (keep w p)
]

run_calls-keeps :
    (P : Database → Type 0)
    → ((db : Database) (c : Call) → P db → P (transition_email_state db c).1)
    → (db : Database) (cs : List Call) → P db
    → P (run_calls db cs)
unfolding run_calls
run_calls-keeps P keep db [] p = p
run_calls-keeps P keep db (c ∷ cs) p =
    run_calls-keeps P keep (transition_email_state db c).1 cs (keep db c p)

-- After any calls, refused ones included, on a database of sound emails, every email is sound: one
-- in a failed state has a recorded live state to resume at, one in another state has no recorded
-- state and no error, and a completed one has its time of completion.
pub run_calls-AllSound : (db : Database) (cs : List Call) → AllSound db → AllSound (run_calls db cs)
run_calls-AllSound db cs v =
    run_calls-keeps AllSound (λ db c. call-keeps AllSound db c (write-AllSound db c)) db cs v

-- After any calls on a database whose event log agrees with its emails, the newest event of each
-- email still carries the state that its row has.
pub run_calls-IsLogged : (db : Database) (cs : List Call) → IsLogged db → IsLogged (run_calls db cs)
run_calls-IsLogged db cs v =
    run_calls-keeps IsLogged (λ db c. call-keeps IsLogged db c (write-IsLogged db c)) db cs v

completed_stuck :
    (t : ProcessingState) (r : Option ProcessingState) (m : Bool)
    → validate_transition completed t r m ≢ none
unfolding validate_transition is_state
completed_stuck t r m h = ground arith

-- The row of an email in COMPLETED is never changed again, whatever is called.
run_calls-completed :
    (db : Database) (cs : List Call) (id : ℕ) (e : Email)
    → db.emails id ≡ some e
    → e.processing_state ≡ completed
    → (run_calls db cs).emails id ≡ some e
unfolding write
run_calls-completed db cs id e h done =
    run_calls-keeps (λ d. d.emails id ≡ some e)
      (λ d c found. call-keeps (λ x. x.emails id ≡ some e) d c (λ w p. kept d c w p) found) db cs h
  where
    kept :
        (d : Database) (c : Call) (w : Written d (transition_email_state d c).1 c)
        → d.emails id ≡ some e
        → (write d w.email c).emails id ≡ some e
    kept d c w p = elim (Bool-cases (id == c.email_id)) [
      | inl same ↦ absurd (stuck (ground arith))
      | inr other ↦ ground arith
    ]
      where
        stuck : some w.email ≡ some e → ⊥
        stuck q = completed_stuck c.target_state w.email.resume_state c.manual_reset (
            subst
              (λ x. validate_transition x c.target_state w.email.resume_state c.manual_reset ≡ none)
              (ap (λ (x : Email). x.processing_state) (some-inj q) ∙ done) w.legal)

resume_allowed :
    (r : ProcessingState) (m : Bool) → validate_transition failed_retryable r (some r) m ≡ none
unfolding validate_transition is_state elem
resume_allowed discovered m = refl
resume_allowed _ m = refl

-- An email in FAILED_RETRYABLE, after any calls on a database of sound emails, is never stuck: it has
-- a recorded live state, and a call that targets it there, with no expected state, returns.
pub retryable_resumes :
    (db : Database) (cs : List Call) (c : Call) (e : Email)
    → AllSound db
    → (run_calls db cs).emails c.email_id ≡ some e
    → e.processing_state ≡ failed_retryable
    → (r : ProcessingState) × IsLive r
      × ((transition_email_state
            (run_calls db cs)
            (record c { target_state = r; expected_current_state = none })).0
          ≡ none)
unfolding transition_email_state transition_locked transition_row elem pipeline_failures is_state
retryable_resumes db cs c e sound found failed =
    let v = run_calls-AllSound db cs sound c.email_id e found in
    let (r, recorded, live) = v.failed_resumable (rw failed refl) in
    let allowed : validate_transition e.processing_state r e.resume_state c.manual_reset ≡ none =
      rw (failed, recorded) (resume_allowed r c.manual_reset) in
    (r, live, ground (arith, found, allowed))
