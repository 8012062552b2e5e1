-- ===== src/Jobs/Requests.antt =====
-- `GraphJobRepository.enqueue` of app/jobs/repository.py. The clock and the id of a new row are
-- arguments.
use astra_licensing_graph.Prelude.{
  append_text, contains_text, ℕ, ◌+◌, Bool, true, false, not, ◌&&◌, Option, none, some, ◌∷◌, String,
  Fields, end, ltb, str_eq, if◌then◌else◌, any, find_first, truncate, text_true,
}
use astra_licensing_graph.Jobs.Table.{
  JobType, ensure_subscription, renew_subscription, recreate_subscription, sync_folder,
  ingest_email, classify_email, pending, GraphJob, Table, is_active, is_type, same_id, clash,
  change_row,
}

pub data Error : Type 0 where
  integrity_error : Error

pub data Result (A : Type 0) : Type 0 where
  ok : A → Result A
  err : Error → Result A

pub record EnqueueResult : Type 0 where
  pub job : GraphJob
  pub created : Bool
  pub coalesced : Bool

pub record Request : Type 0 where
  pub job_type : JobType
  pub idempotency_key : String
  pub max_attempts : ℕ
  pub mailbox_id : Option ℕ
  pub folder_id : Option ℕ
  pub email_id : Option ℕ
  pub reason : Option String
  pub payload : Option Fields
  pub priority : ℕ
  pub delay_seconds : ℕ
  pub new_id : ℕ
  pub now : ℕ

unfoldable pub find_key : String → Table → Option GraphJob
find_key key = find_first (λ j. str_eq j.idempotency_key key)

-- COALESCED_BY_FOLDER
unfoldable pub by_folder : JobType → Bool
by_folder sync_folder = true
by_folder ensure_subscription = true
by_folder renew_subscription = true
by_folder recreate_subscription = true
by_folder _ = false

unfoldable pub by_email : JobType → Bool
by_email ingest_email = true
by_email classify_email = true
by_email _ = false

unfoldable pub find_active_for_target : JobType → Option ℕ → Option ℕ → Table → Option GraphJob
unfolding is_type
find_active_for_target type folder email jobs =
    if by_email type
    then find_first (λ j. is_type j.job_type type && is_active j.status && same_id j.email_id email)
        jobs
    else if by_folder type
    then find_first
        (λ j. is_type j.job_type type && is_active j.status && same_id j.folder_id folder) jobs
    else none

-- `job.reason or ""`
reason_text : Option String → String
reason_text none = ""
reason_text (some s) = s

new_reason : Option String → Option String → Option String
unfolding reason_text
new_reason old none = old
new_reason old (some r) =
    if text_true r && not (contains_text r (reason_text old))
    then if text_true (reason_text old)
      then some (truncate 500 (append_text (reason_text old) (append_text "; " r)))
      else some (truncate 500 r)
    else old

unfoldable pub coalesce_into : GraphJob → Option String → ℕ → GraphJob
unfolding new_reason
coalesce_into job reason priority = record job {
  reason = new_reason job.reason reason;
  priority = if ltb priority job.priority then priority else job.priority;
}

payload_of : Option Fields → Fields
payload_of none = end
payload_of (some p) = p

unfoldable pub new_job : Request → GraphJob
unfolding payload_of
new_job r = record {
  id = r.new_id;
  job_type = r.job_type;
  mailbox_id = r.mailbox_id;
  folder_id = r.folder_id;
  email_id = r.email_id;
  reason = r.reason;
  payload = payload_of r.payload;
  status = pending;
  priority = r.priority;
  idempotency_key = r.idempotency_key;
  attempts = 0;
  max_attempts = r.max_attempts;
  available_at = r.now + r.delay_seconds;
  created_at = r.now;
  lease_owner = none;
  lease_expires_at = none;
  started_at = none;
  completed_at = none;
  last_error_code = none;
  last_error_message = none;
}

unfoldable pub coalesced_into : Table → GraphJob → Request → EnqueueResult × Table
coalesced_into jobs active r = (
  record { job = coalesce_into active r.reason r.priority; created = false; coalesced = true },
  change_row active.id (λ j. coalesce_into j r.reason r.priority) jobs,
)

-- The selects of `enqueue` find a row with the key, or an active row of the target.
unfoldable pub find_existing : Table → Request → Option (EnqueueResult × Table)
unfolding find_key
find_existing jobs r = elim (find_key r.idempotency_key jobs) [
  | some job ↦ some (record { job = job; created = false; coalesced = false }, jobs)
  | none ↦ elim (find_active_for_target r.job_type r.folder_id r.email_id jobs) [
    | some active ↦ some (coalesced_into jobs active r)
    | none ↦ none
  ]
]

-- The insert in its SAVEPOINT, at a table that other transactions may have changed since.
unfoldable pub insert_job : Table → Request → Result (EnqueueResult × Table)
insert_job jobs r =
    if any (clash (new_job r)) jobs
    then elim (find_existing jobs r) [ some found ↦ ok found | none ↦ err integrity_error ]
    else ok (record { job = new_job r; created = true; coalesced = false }, new_job r ∷ jobs)

-- `seen` is the table that the selects read, `later` the one that the insert meets.
unfoldable pub enqueue : Table → Table → Request → Result (EnqueueResult × Table)
enqueue seen later r = elim (find_existing seen r) [
  | some found ↦ ok found
  | none ↦ insert_job later r
]
