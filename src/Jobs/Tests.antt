-- ===== src/Jobs/Tests.antt =====
-- A folder whose sync fails once and is asked for again, and the theorems at it.
use astra_licensing_graph.Prelude.{
  ℕ, ◌/◌, ◌≡◌, refl, inl, true, false, none, some, [], ◌∷◌, String, arith,
}
use astra_licensing_graph.Jobs.Table.{
  sync_folder, GraphJob, is_type, same_slot, clash, refuses_update,
}
use astra_licensing_graph.Jobs.Requests.{
  by_email, by_folder, ok, err, integrity_error, Request, find_key, find_active_for_target,
  coalesce_into, new_job, coalesced_into, find_existing, insert_job, enqueue,
}
use astra_licensing_graph.Jobs.Queue.{
  Settings, claimable, waits, wanted, before, first_of_order, claimed, commit_row, claim_next,
  mark_completed, mark_retryable_failure, mark_review_failure, backoff_delay, record_failure,
  recovered,
}
use astra_licensing_graph.Jobs.Claim.{Claimed, claim_next-first, claim_next-blocked}
use astra_licensing_graph.Jobs.Enqueue.{IsUnique, enqueue_again}
use astra_licensing_graph.Jobs.Spread.{IsSpread, enqueue-IsSpread}
use astra_licensing_graph.Jobs.Attempts.{
  Life, InBudget, Life-InBudget, FailureOutcome, record_failure-policy, crash_loop,
}

abbrev sync : String → ℕ → ℕ → Request
sync key id now = record {
  job_type = sync_folder;
  idempotency_key = key;
  max_attempts = 3;
  mailbox_id = some 1;
  folder_id = some 4;
  email_id = none;
  reason = some "webhook";
  payload = none;
  priority = 100;
  delay_seconds = 0;
  new_id = id;
  now = now;
}

abbrev settings : Settings
settings = record { retry_base_seconds = 2; retry_max_seconds = 60 }

abbrev half : ℕ → ℕ
half n = n / 2

program : Unit {0}
unfolding enqueue find_existing insert_job coalesced_into coalesce_into find_key
    find_active_for_target by_email by_folder new_job clash same_slot is_type claim_next claimable
    waits wanted before first_of_order claimed commit_row refuses_update record_failure
    mark_retryable_failure mark_review_failure backoff_delay mark_completed recovered crash_loop
program = tt

-- The first sync of the folder, in the empty table.
abbrev first_job : GraphJob
unfolding new_job
first_job = new_job (sync "a" 1 10)

first_enqueue :
    enqueue [] [] (sync "a" 1 10)
    ≡ ok (record { job = first_job; created = true; coalesced = false }, first_job ∷ [])
unfolding program
first_enqueue = refl

-- Another sync of the folder is folded into the first.
abbrev folded_job : GraphJob
unfolding coalesce_into
folded_job = coalesce_into first_job (sync "b" 2 30).reason (sync "b" 2 30).priority

folded_enqueue :
    enqueue (first_job ∷ []) (first_job ∷ []) (sync "b" 2 30)
    ≡ ok (record { job = folded_job; created = false; coalesced = true }, folded_job ∷ [])
unfolding program
folded_enqueue = refl

enqueue-IsSpread_example : IsUnique (folded_job ∷ []) × IsSpread (folded_job ∷ [])
enqueue-IsSpread_example =
    enqueue-IsSpread (first_job ∷ []) (sync "b" 2 30)
      (record { job = folded_job; created = false; coalesced = true }) (folded_job ∷ []) (refl, tt)
      (tt, tt) folded_enqueue

enqueue_again_example :
    enqueue (first_job ∷ []) (first_job ∷ []) (sync "a" 2 50)
    ≡ ok (record { job = first_job; created = false; coalesced = false }, first_job ∷ [])
enqueue_again_example =
    enqueue_again [] [] (sync "a" 1 10) (sync "a" 2 50)
      (record { job = first_job; created = true; coalesced = false }) (first_job ∷ []) first_enqueue
      refl refl

abbrev running_job : GraphJob
unfolding claimed
running_job = claimed first_job "w1" 30 20

first_claim : claim_next (first_job ∷ []) "w1" 30 [] [] 20 ≡ ok (some running_job, running_job ∷ [])
unfolding program
first_claim = refl

claim_next-first_example : Claimed (first_job ∷ []) "w1" 30 [] [] 20 running_job (running_job ∷ [])
claim_next-first_example =
    claim_next-first (first_job ∷ []) "w1" 30 [] [] 20 running_job (running_job ∷ []) first_claim

-- The sync fails, and a second one is asked for while it waits for its retry.
abbrev failed_job : GraphJob
unfolding record_failure mark_retryable_failure mark_review_failure backoff_delay
failed_job = (record_failure half settings running_job "http_503" "busy" true 25).0

abbrev second_job : GraphJob
unfolding new_job
second_job = new_job (sync "b" 2 30)

second_enqueue :
    enqueue (failed_job ∷ []) (failed_job ∷ []) (sync "b" 2 30)
    ≡ ok (
      record { job = second_job; created = true; coalesced = false },
      second_job ∷ failed_job ∷ [],
    )
unfolding program
second_enqueue = refl

claim_next-blocked_example :
    claim_next (second_job ∷ failed_job ∷ []) "w2" 30 [] [] 40 ≡ err integrity_error
unfolding program
claim_next-blocked_example =
    claim_next-blocked (second_job ∷ failed_job ∷ []) "w2" 30 [] [] 40 failed_job second_job 4 refl
      refl refl (inl refl) (λ e. omega (arith, e)) refl refl refl

record_failure-policy_example :
    FailureOutcome settings running_job true 25
      (record_failure half settings running_job "http_503" "busy" true 25).0
      (record_failure half settings running_job "http_503" "busy" true 25).1
record_failure-policy_example =
    record_failure-policy half settings running_job "http_503" "busy" true 25 (λ n. omega arith)

first-InBudget : InBudget first_job
unfolding program
first-InBudget = record { capped = omega arith; waiting = λ h. omega arith }

Life-InBudget_example :
    InBudget (record_failure half settings running_job "http_503" "busy" true 25).0
unfolding program
Life-InBudget_example = Life-InBudget first-InBudget (
    Life.fail half settings "http_503" "busy" true 25 (Life.claim "w1" 30 20 Life.fresh (inl refl)))
