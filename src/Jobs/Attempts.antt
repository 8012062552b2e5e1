-- ===== src/Jobs/Attempts.antt =====
-- The attempts of a job under app/jobs/repository.py and app/jobs/service.py.
use Prim.Native.Nat.{min}
use astra_licensing_graph.Prelude.{
  ℕ, zero, suc, ◌+◌, ◌-◌, ◌*◌, ◌^◌, ◌≤◌, ◌<◌, ◌≡◌, refl, ◌∙◌, ◌⊎◌, inl, inr, Bool, true, false,
  Option, none, some, String, arith, Bool-cases, ltb,
}
use astra_licensing_graph.Jobs.Table.{pending, failed_retryable, failed_review, GraphJob}
use astra_licensing_graph.Jobs.Requests.{coalesce_into}
use astra_licensing_graph.Jobs.Queue.{
  Settings, ReviewNotice, claimed, mark_completed, mark_retryable_failure, mark_review_failure,
  record_failure, backoff_delay, recovered,
}

-- What the queue does to one job while its worker is alive.
pub data Life (job : GraphJob) : GraphJob → Type 0 where
  fresh : Life job job
  claim :
      {j : GraphJob} (worker_id : String) (lease_seconds now : ℕ)
      → Life job j
      → (j.status ≡ pending) ⊎ (j.status ≡ failed_retryable)
      → Life job (claimed j worker_id lease_seconds now)
  fail :
      {j : GraphJob} (draw : ℕ → ℕ) (settings : Settings) (code message : String) (retryable : Bool)
      (now : ℕ)
      → Life job j
      → Life job (record_failure draw settings j code message retryable now).0
  complete : {j : GraphJob} (now : ℕ) → Life job j → Life job (mark_completed j now)
  coalesce :
      {j : GraphJob} (reason : Option String) (priority : ℕ)
      → Life job j
      → Life job (coalesce_into j reason priority)

-- A job that still waits has an attempt left.
pub record InBudget (j : GraphJob) : Type 0 where
  pub capped : j.attempts ≤ j.max_attempts
  pub waiting : (j.status ≡ pending) ⊎ (j.status ≡ failed_retryable) → j.attempts < j.max_attempts

fail-InBudget :
    (j : GraphJob) (draw : ℕ → ℕ) (settings : Settings) (code message : String) (retryable : Bool)
    (now : ℕ)
    → InBudget j
    → InBudget (record_failure draw settings j code message retryable now).0
unfolding record_failure mark_retryable_failure mark_review_failure
fail-InBudget j draw settings code message true now v = ground arith
fail-InBudget j draw settings code message false now v = ground arith

-- However often a job that starts within its budget is claimed, fails, is merged with other requests
-- or completes, as long as no lease lapses, its attempts do not pass their maximum, and while it
-- waits an attempt is left.
pub Life-InBudget : {job j : GraphJob} → InBudget job → Life job j → InBudget j
unfolding claimed mark_completed coalesce_into
Life-InBudget v fresh = v
Life-InBudget v (claim {j} w l n life waits) =
    let u = Life-InBudget v life in
    record { capped = omega (arith, u.waiting waits); waiting = λ h. absurd (ground arith) }
Life-InBudget v (fail {j} d s c m r n life) = fail-InBudget j d s c m r n (Life-InBudget v life)
Life-InBudget v (complete {j} n life) =
    let u = Life-InBudget v life in
    record { capped = u.capped; waiting = λ h. absurd (ground arith) }
Life-InBudget v (coalesce {j} r p life) =
    let u = Life-InBudget v life in record { capped = u.capped; waiting = u.waiting }

-- The row and the notice after a failed attempt.
pub record FailureOutcome (settings : Settings) (j : GraphJob) (retryable : Bool) (now : ℕ)
    (j' : GraphJob) (notice : Option ReviewNotice) : Type 0 where
  pub owner : j'.lease_owner ≡ none
  pub expiry : j'.lease_expires_at ≡ none
  pub outcome :
      ((retryable ≡ true)
        × (j.attempts < j.max_attempts)
        × (j'.status ≡ failed_retryable)
        × (j'.available_at ≤ now + settings.retry_max_seconds)
        × (notice ≡ none))
      ⊎ (((retryable ≡ false) ⊎ (j.max_attempts ≤ j.attempts))
          × (j'.status ≡ failed_review)
          × ((n : ReviewNotice) × (notice ≡ some n) × (n.attempts ≡ j.attempts)))

delay_le :
    (draw : ℕ → ℕ) (settings : Settings) (j : GraphJob) (now : ℕ)
    → ((n : ℕ) → draw n ≤ n)
    → now + backoff_delay draw j.attempts settings.retry_base_seconds settings.retry_max_seconds
      ≤ now + settings.retry_max_seconds
unfolding backoff_delay
delay_le draw settings j now bound = omega (
  arith,
  bound (min (settings.retry_base_seconds * 2 ^ (j.attempts - 1)) settings.retry_max_seconds),
)

-- A failed attempt releases the lease. It is retried exactly when the failure is retryable and an
-- attempt is left, after a delay of at most the configured maximum when the draw respects its bound;
-- otherwise it goes to review, with a notice.
pub record_failure-policy :
    (draw : ℕ → ℕ) (settings : Settings) (j : GraphJob) (code message : String) (retryable : Bool)
    (now : ℕ)
    → ((n : ℕ) → draw n ≤ n)
    → FailureOutcome settings j retryable now
        (record_failure draw settings j code message retryable now).0
        (record_failure draw settings j code message retryable now).1
unfolding record_failure mark_retryable_failure mark_review_failure
record_failure-policy draw settings j code message true now bound =
    elim (Bool-cases (ltb j.attempts j.max_attempts)) [
      | inl left ↦ rw left (record {
        owner = refl;
        expiry = refl;
        outcome = inl (refl, ground arith, refl, delay_le draw settings j now bound, refl);
      })
      | inr spent ↦ rw spent (record {
        owner = refl;
        expiry = refl;
        outcome = inr (inr (ground arith), refl, (_, refl, refl));
      })
    ]
record_failure-policy draw settings j code message false now bound = record {
  owner = refl;
  expiry = refl;
  outcome = inr (inl refl, refl, (_, refl, refl));
}

-- A worker that dies in every attempt: the job is claimed, and its lease lapses.
unfoldable pub crash_loop : ℕ → String → ℕ → ℕ → GraphJob → GraphJob
crash_loop zero worker_id lease_seconds now j = j
crash_loop (suc n) worker_id lease_seconds now j =
    crash_loop n worker_id lease_seconds (now + lease_seconds + 1)
      (recovered (claimed j worker_id lease_seconds now) (now + lease_seconds + 1))

recovered-claimed :
    (j : GraphJob) (worker_id : String) (lease_seconds now : ℕ)
    → let j' = recovered (claimed j worker_id lease_seconds now) (now + lease_seconds + 1) in
      (j'.status ≡ pending) × (j'.attempts ≡ j.attempts + 1) × (j'.max_attempts ≡ j.max_attempts)
unfolding recovered claimed
recovered-claimed j worker_id lease_seconds now = ground arith

-- `n` attempts whose worker dies leave a waiting job waiting, with `n` more attempts than before and
-- the same maximum: the maximum does not end the loop.
pub crash_loop-attempts :
    (n : ℕ) (worker_id : String) (lease_seconds now : ℕ) (j : GraphJob)
    → j.status ≡ pending
    → let j' = crash_loop n worker_id lease_seconds now j in
      (j'.status ≡ pending) × (j'.attempts ≡ j.attempts + n) × (j'.max_attempts ≡ j.max_attempts)
unfolding crash_loop
crash_loop-attempts zero worker_id lease_seconds now j h = (h, omega arith, refl)
crash_loop-attempts (suc n) worker_id lease_seconds now j h =
    let (s, a, m) = recovered-claimed j worker_id lease_seconds now in
    let (s', a', m') =
      crash_loop-attempts n worker_id lease_seconds (now + lease_seconds + 1)
        (recovered (claimed j worker_id lease_seconds now) (now + lease_seconds + 1)) s in
    (s', omega (arith, a, a'), m' ∙ m)
