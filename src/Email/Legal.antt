-- ===== src/Email/Legal.antt =====
-- The moves of the pipeline of app/domain/transitions.py as a relation on the order of its
-- states.
use astra_licensing_graph.Prelude.{
  ◌≡◌, refl, ◌↔◌, ◌⊎◌, inl, inr, suc, ◌<◌, Bool, true, Option, none, some, arith,
}
use astra_licensing_graph.Email.States.{
  ProcessingState, classified, task_created, failed_retryable, failed_review, position,
  allowed_transitions, manual_reset_targets, validate_transition,
}

-- The states before COMPLETED stand below 6, in the order of the pipeline.
abbrev pub IsLive : ProcessingState → Type 0
IsLive s = position s < 6

pub data Legal (resume : Option ProcessingState) (manual : Bool)
    : ProcessingState → ProcessingState → Type 0 where
  advance :
      (s t : ProcessingState) → IsLive s → position t ≡ suc (position s) → Legal resume manual s t
  reclassify : (s : ProcessingState) → s ≡ classified → Legal resume manual s s
  fail_retryable :
      (s t : ProcessingState) → IsLive s → t ≡ failed_retryable → Legal resume manual s t
  fail_review : (s t : ProcessingState) → IsLive s → t ≡ failed_review → Legal resume manual s t
  escalate :
      (s t : ProcessingState) → s ≡ failed_retryable → t ≡ failed_review → Legal resume manual s t
  resume_work :
      (s t : ProcessingState) → s ≡ failed_retryable → resume ≡ some t → Legal resume manual s t
  reset :
      (s t : ProcessingState)
      → s ≡ failed_review
      → manual ≡ true
      → IsLive t
      → Legal resume manual s t

module _ (resume : Option ProcessingState) (manual : Bool) where
  advance_lem :
      (s t : ProcessingState)
      → IsLive s
      → position t ≡ suc (position s)
      → validate_transition s t resume manual ≡ none
  unfolding validate_transition allowed_transitions
  advance_lem classified task_created l e = refl
  advance_lem _ _ l e = ground arith

  fail_lem :
      (s t : ProcessingState)
      → IsLive s
      → (t ≡ ProcessingState.failed_retryable) ⊎ (t ≡ ProcessingState.failed_review)
      → validate_transition s t resume manual ≡ none
  unfolding validate_transition allowed_transitions
  fail_lem classified failed_review l e = refl
  fail_lem _ _ l e = ground arith

  reset_lem :
      (t : ProcessingState)
      → manual ≡ true
      → IsLive t
      → validate_transition ProcessingState.failed_review t resume manual ≡ none
  unfolding validate_transition manual_reset_targets
  reset_lem classified m l = ground arith
  reset_lem _ m l = ground arith

  resume_lem :
      (t : ProcessingState)
      → resume ≡ some t
      → validate_transition ProcessingState.failed_retryable t resume manual ≡ none
  unfolding validate_transition
  resume_lem classified e = ground arith
  resume_lem _ e = ground arith

  Legal-validate :
      {s t : ProcessingState}
      → Legal resume manual s t
      → validate_transition s t resume manual ≡ none
  Legal-validate (advance s t l e) = advance_lem s t l e
  Legal-validate (reclassify s e) = rw e (unfold validate_transition allowed_transitions in refl)
  Legal-validate (fail_retryable s t l e) = fail_lem s t l (inl e)
  Legal-validate (fail_review s t l e) = fail_lem s t l (inr e)
  Legal-validate (escalate s t e f) = rw (e, f) (unfold validate_transition in refl)
  Legal-validate (resume_work s t e f) = rw e (resume_lem t f)
  Legal-validate (reset s t e m l) = rw e (reset_lem t m l)

  validate-Legal :
      (s t : ProcessingState)
      → validate_transition s t resume manual ≡ none
      → Legal resume manual s t
  unfolding validate_transition allowed_transitions manual_reset_targets position
  validate-Legal classified classified h = reclassify classified refl
  validate-Legal s t h =
      grind (arith, advance, Legal.fail_retryable, Legal.fail_review, escalate, resume_work, reset)

  -- `validate_transition` returns exactly on the legal moves: one step along the pipeline, a
  -- repeated classification, a failure of a live state, the escalation of a retryable failure, its
  -- resumption at the recorded state, and a manual reset of a reviewed failure to a live state.
  pub validate_transition_iff :
      (s t : ProcessingState)
      → (validate_transition s t resume manual ≡ none) ↔ Legal resume manual s t
  validate_transition_iff s t = (validate-Legal s t, Legal-validate)
