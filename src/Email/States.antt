-- ===== src/Email/States.antt =====
-- The processing states of app/domain/enums.py and the rules of app/domain/transitions.py. A
-- refusal keeps the message of its exception as a constructor.
use astra_licensing_graph.Prelude.{
  ℕ, Bool, ◌&&◌, Option, none, some, List, [], ◌∷◌, ◌++◌, ◌==◌, if◌then◌else◌, any,
}

pub data ProcessingState : Type 0 where
  discovered fetched attachments_saved classified task_created moved completed failed_retryable
        failed_review :
      ProcessingState

-- The place of a state in the enumeration, by which two states are compared.
unfoldable pub position : ProcessingState → ℕ
position discovered = 0
position fetched = 1
position attachments_saved = 2
position classified = 3
position task_created = 4
position moved = 5
position completed = 6
position failed_retryable = 7
position failed_review = 8

unfoldable pub is_state : ProcessingState → ProcessingState → Bool
unfolding position
is_state s t = position s == position t

-- `state in states`
unfoldable pub elem : ProcessingState → List ProcessingState → Bool
unfolding is_state
elem s = any (is_state s)

-- _PIPELINE_FAILURES
unfoldable pub pipeline_failures : List ProcessingState
pipeline_failures = failed_retryable ∷ failed_review ∷ []

-- ALLOWED_TRANSITIONS. The two failed states are no keys of the table; `validate_transition` has
-- returned or raised before it looks them up.
unfoldable pub allowed_transitions : ProcessingState → List ProcessingState
unfolding pipeline_failures
allowed_transitions discovered = (fetched ∷ []) ++ pipeline_failures
allowed_transitions fetched = (attachments_saved ∷ []) ++ pipeline_failures
allowed_transitions attachments_saved = (classified ∷ []) ++ pipeline_failures
allowed_transitions classified = (classified ∷ task_created ∷ []) ++ pipeline_failures
allowed_transitions task_created = (moved ∷ []) ++ pipeline_failures
allowed_transitions moved = (completed ∷ []) ++ pipeline_failures
allowed_transitions _ = []

unfoldable pub manual_reset_targets : List ProcessingState
manual_reset_targets =
    discovered ∷ fetched ∷ attachments_saved ∷ classified ∷ task_created ∷ moved ∷ []

unfoldable pub significant_states : List ProcessingState
significant_states = classified ∷ task_created ∷ completed ∷ failed_review ∷ []

pub data Refusal : Type 0 where
  completed_is_terminal may_only_resume needs_manual_reset : Refusal
  cannot_transition : ProcessingState → ProcessingState → Refusal

-- `none` where the function returns, and the refusal that it raises.
unfoldable pub validate_transition :
    ProcessingState → ProcessingState → Option ProcessingState → Bool → Option Refusal
unfolding elem
validate_transition current target resume_state manual_reset =
    if is_state current completed
    then some completed_is_terminal
    else if is_state current failed_retryable
    then if is_state target failed_review then none else elim resume_state [
      | none ↦ some may_only_resume
      | some r ↦ if is_state target r then none else some may_only_resume
    ]
    else if is_state current failed_review
    then if manual_reset && elem target manual_reset_targets then none else some needs_manual_reset
    else if elem target (allowed_transitions current)
    then none
    else some (cannot_transition current target)

unfoldable pub is_significant : ProcessingState → Bool
unfolding elem significant_states
is_significant target = elem target significant_states
