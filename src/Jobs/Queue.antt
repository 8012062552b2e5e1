-- ===== src/Jobs/Queue.antt =====
-- Claims, leases, ends and failures of jobs: app/jobs/repository.py, `record_failure` of
-- app/jobs/service.py and `backoff_delay` of app/graph/retry.py. The clock and the random draw of a
-- retry delay are arguments.
use astra_licensing_graph.Prelude.{
  ℕ, ◌+◌, ◌-◌, ◌*◌, ◌^◌, Bool, true, false, not, ◌&&◌, Option, none, some, List, [], ◌∷◌, String,
  ◌==◌, ltb, leb, str_eq, if◌then◌else◌, any, map, truncate, is_some, text_true,
}
use Prim.Native.Nat.{min}
use astra_licensing_graph.Jobs.Table.{
  JobType, JobStatus, pending, running, completed, failed_retryable, failed_review, GraphJob, Table,
  is_type, refuses_update, put_row,
}
use astra_licensing_graph.Jobs.Requests.{integrity_error, Result, ok, err}

-- The statement of `claim_next`: due, waiting, of a wanted type and not locked by another worker.
unfoldable pub waits : JobStatus → Bool
waits pending = true
waits failed_retryable = true
waits _ = false

-- An empty list of types is no restriction.
unfoldable pub wanted : List JobType → JobType → Bool
unfolding is_type
wanted [] t = true
wanted (u ∷ us) t = any (is_type t) (u ∷ us)

unfoldable pub claimable : ℕ → List JobType → List ℕ → GraphJob → Bool
claimable now types locked j =
    waits j.status
    && leb j.available_at now
    && wanted types j.job_type
    && not (any (λ i. i == j.id) locked)

-- ORDER BY priority, available_at, created_at
unfoldable pub before : GraphJob → GraphJob → Bool
before j k =
    if j.priority == k.priority
    then if j.available_at == k.available_at
      then ltb j.created_at k.created_at
      else ltb j.available_at k.available_at
    else ltb j.priority k.priority

unfoldable pub first_of_order : (GraphJob → Bool) → Table → Option GraphJob
first_of_order p [] = none
first_of_order p (j ∷ js) =
    let rest = first_of_order p js in
    if p j
    then elim rest [ none ↦ some j | some k ↦ if before k j then some k else some j ]
    else rest

unfoldable pub claimed : GraphJob → String → ℕ → ℕ → GraphJob
claimed job worker_id lease_seconds now = record job {
  status = running;
  lease_owner = some worker_id;
  lease_expires_at = some (now + lease_seconds);
  attempts = job.attempts + 1;
  started_at = if is_some job.started_at then job.started_at else some now;
}

-- The commit of one changed row.
unfoldable pub commit_row : Table → GraphJob → Result Table
commit_row jobs j = if refuses_update jobs j then err integrity_error else ok (put_row j jobs)

unfoldable pub claim_next :
    Table → String → ℕ → List JobType → List ℕ → ℕ → Result (Option GraphJob × Table)
claim_next jobs worker_id lease_seconds types locked now =
    elim (first_of_order (claimable now types locked) jobs) [
      | none ↦ ok (none, jobs)
      | some job ↦
          let job' = claimed job worker_id lease_seconds now in
          elim (commit_row jobs job') [ err e ↦ err e | ok jobs' ↦ ok (some job', jobs') ]
    ]

is_running : JobStatus → Bool
is_running running = true
is_running _ = false

owned_by : Option String → String → Bool
owned_by none worker = false
owned_by (some o) worker = str_eq o worker

-- Whether `extend_lease` updates the row.
unfoldable pub holds_lease : ℕ → String → GraphJob → Bool
unfolding is_running owned_by
holds_lease id worker j = j.id == id && owned_by j.lease_owner worker && is_running j.status

unfoldable pub extend_lease : Table → ℕ → String → ℕ → ℕ → Bool × Table
extend_lease jobs id worker lease_seconds now = (
  any (holds_lease id worker) jobs,
  map
      (λ j.
        if holds_lease id worker j
        then record j { lease_expires_at = some (now + lease_seconds) }
        else j)
      jobs,
)

unfoldable pub mark_completed : GraphJob → ℕ → GraphJob
mark_completed job now = record job {
  status = completed;
  completed_at = some now;
  lease_owner = none;
  lease_expires_at = none;
  last_error_code = none;
  last_error_message = none;
}

-- `min(base * 2 ** max(attempt - 1, 0), max)`, the bound of the random delay of
-- app/graph/retry.py; `draw` is the random choice below a bound.
unfoldable pub backoff_delay : (ℕ → ℕ) → ℕ → ℕ → ℕ → ℕ
backoff_delay draw attempt base_seconds max_seconds =
    draw (min (base_seconds * 2 ^ (attempt - 1)) max_seconds)

pub record Settings : Type 0 where
  pub retry_base_seconds : ℕ
  pub retry_max_seconds : ℕ

unfoldable pub mark_retryable_failure :
    (ℕ → ℕ) → Settings → GraphJob → String → String → ℕ → GraphJob
mark_retryable_failure draw settings job code message now = record job {
  status = failed_retryable;
  available_at =
      now + backoff_delay draw job.attempts settings.retry_base_seconds settings.retry_max_seconds;
  lease_owner = none;
  lease_expires_at = none;
  last_error_code = some (truncate 100 code);
  last_error_message = some (truncate 500 message);
}

unfoldable pub mark_review_failure : GraphJob → String → String → ℕ → GraphJob
mark_review_failure job code message now = record job {
  status = failed_review;
  lease_owner = none;
  lease_expires_at = none;
  completed_at = some now;
  last_error_code = some (truncate 100 code);
  last_error_message = some (truncate 500 message);
}

-- What a final failure adds to the audit log and the outbox.
pub record ReviewNotice : Type 0 where
  pub actor_id : String
  pub job_id : ℕ
  pub attempts : ℕ
  pub error_code : String

worker_of : Option String → String
worker_of none = "graph-worker"
worker_of (some w) = if text_true w then w else "graph-worker"

unfoldable pub record_failure :
    (ℕ → ℕ) → Settings → GraphJob → String → String → Bool → ℕ → GraphJob × Option ReviewNotice
unfolding worker_of
record_failure draw settings job code message retryable now =
    if retryable && ltb job.attempts job.max_attempts
    then (mark_retryable_failure draw settings job code message now, none)
    else let final_code = if retryable then "max_attempts_exhausted" else code in
      (
        mark_review_failure job final_code message now,
        some (record {
          actor_id = worker_of job.lease_owner;
          job_id = job.id;
          attempts = job.attempts;
          error_code = final_code;
        }),
      )

lapsed : Option ℕ → ℕ → Bool
lapsed none now = false
lapsed (some t) now = ltb t now

unfoldable pub recovered : GraphJob → ℕ → GraphJob
unfolding is_running lapsed
recovered j now =
    if is_running j.status && lapsed j.lease_expires_at now
    then record j {
      status = pending;
      lease_owner = none;
      lease_expires_at = none;
      last_error_code = some "lease_expired";
      last_error_message = some "Worker lease expired; job returned to the queue.";
    }
    else j

unfoldable pub recover_expired_leases : Table → ℕ → Table
recover_expired_leases jobs now = map (λ j. recovered j now) jobs
