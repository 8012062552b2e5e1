-- ===== src/Email/Pipeline.antt =====
-- One call of `transition_email_state`: what it has found and written.
use astra_licensing_graph.Prelude.{
  ◌≡◌, sym, ◌∙◌, ◌⊎◌, refl, ap, inl, inr, ℕ, Bool, true, false, Option, none, some, arith,
  Option-cases, Bool-cases,
}
use astra_licensing_graph.Email.States.{
  ProcessingState, discovered, completed, position, is_state, elem, pipeline_failures,
  validate_transition,
}
use astra_licensing_graph.Email.Legal.{IsLive}
use astra_licensing_graph.Email.Service.{
  Email, Database, Call, conflict, ok, is_failure, move_email, write, transition_row,
  transition_locked, transition_email_state,
}

-- The recorded state is the one to resume at exactly while the email has failed.
pub record IsSound (e : Email) : Type 0 where
  pub failed_resumable :
      is_failure e.processing_state ≡ true
      → (r : ProcessingState) × (e.resume_state ≡ some r) × IsLive r
  pub clear :
      is_failure e.processing_state ≡ false
      → (e.resume_state ≡ none) × (e.last_error_code ≡ none) × (e.last_error_message ≡ none)
  pub stamped : e.processing_state ≡ completed → (t : ℕ) × (e.completed_at ≡ some t)

-- Only a live state and a failure may be left for another state.
left-IsLive :
    (s t : ProcessingState) (r : Option ProcessingState) (m : Bool)
    → validate_transition s t r m ≡ none
    → is_failure s ≡ false
    → IsLive s
unfolding validate_transition elem pipeline_failures is_state position
left-IsLive discovered t r m h f = omega arith
left-IsLive _ t r m h f = ground arith

pub move_email-state : (e : Email) (c : Call) → (move_email e c).processing_state ≡ c.target_state
unfolding move_email
move_email-state e c = ground arith

module _ (e : Email) (c : Call) (v : IsSound e)
    (h : validate_transition e.processing_state c.target_state e.resume_state c.manual_reset
      ≡ none) where
  failed_case :
      is_failure c.target_state ≡ true
      → (r : ProcessingState) × ((move_email e c).resume_state ≡ some r) × IsLive r
  unfolding move_email
  failed_case f = elim (Bool-cases (is_failure e.processing_state)) [
    | inl again ↦ let (r, recorded, live) = v.failed_resumable again in (r, ground arith, live)
    | inr new ↦ (
      e.processing_state,
      ground arith,
      left-IsLive e.processing_state c.target_state e.resume_state c.manual_reset h new,
    )
  ]

  clear_case :
      is_failure c.target_state ≡ false
      → ((move_email e c).resume_state ≡ none)
        × ((move_email e c).last_error_code ≡ none)
        × ((move_email e c).last_error_message ≡ none)
  unfolding move_email
  clear_case f = (ground arith, ground arith, ground arith)

  stamped_case : c.target_state ≡ completed → (t : ℕ) × ((move_email e c).completed_at ≡ some t)
  unfolding move_email is_state
  stamped_case t = (c.now, ground arith)

  pub move_email-IsSound : IsSound (move_email e c)
  move_email-IsSound =
      let same = move_email-state e c in
      record {
        failed_resumable = λ f. failed_case (rw same at f);
        clear = λ f. clear_case (rw same at f);
        stamped = λ t. stamped_case (sym same ∙ t);
      }

is_state_lem : (s t : ProcessingState) → is_state s t ≡ true → s ≡ t
unfolding is_state position
is_state_lem s t h = ground arith

conflict-none :
    (s : ProcessingState) (expected : Option ProcessingState)
    → conflict s expected ≡ none
    → (expected ≡ none) ⊎ (expected ≡ some s)
unfolding conflict
conflict-none s none h = inl refl
conflict-none s (some e) h = elim (Bool-cases (is_state s e)) [
  | inl same ↦ inr (ap some (sym (is_state_lem s e same)))
  | inr other ↦ absurd (cc (rw other at h))
]

transition_row-ok :
    (db db' : Database) (e : Email) (c : Call)
    → transition_row db e c ≡ ok db'
    → (conflict e.processing_state c.expected_current_state ≡ none)
      × (validate_transition e.processing_state c.target_state e.resume_state c.manual_reset ≡ none)
      × (db' ≡ write db e c)
unfolding transition_row
transition_row-ok db db' e c h = ground arith

-- What a call that returns has done.
pub record Written (db db' : Database) (c : Call) : Type 0 where
  pub email : Email
  pub found : db.emails c.email_id ≡ some email
  pub expected :
      (c.expected_current_state ≡ none) ⊎ (c.expected_current_state ≡ some email.processing_state)
  pub legal :
      validate_transition email.processing_state c.target_state email.resume_state c.manual_reset
      ≡ none
  pub after : db' ≡ write db email c

pub Written-of :
    (db db' : Database) (c : Call) → transition_email_state db c ≡ (none, db') → Written db db' c
unfolding transition_email_state transition_locked
Written-of db db' c h = elim (Option-cases (db.emails c.email_id)) [
  | inl missing ↦ ground arith
  | inr (e, found) ↦
      let row : transition_row db e c ≡ ok db' = ground arith in
      let (expected, legal, after) = transition_row-ok db db' e c row in
      record {
        email = e;
        found = found;
        expected = conflict-none _ _ expected;
        legal = legal;
        after = after;
      }
]
