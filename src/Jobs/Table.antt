-- ===== src/Jobs/Table.antt =====
-- The rows of `graph_jobs` and the constraints of the table (app/models/job.py). Ids of rows are
-- numbers, and times count from a fixed instant.
use astra_licensing_graph.Prelude.{
  ℕ, Bool, true, false, not, ◌&&◌, ◌||◌, Option, some, List, String, Fields, ◌==◌, str_eq,
  if◌then◌else◌, any, map,
}

pub data JobType : Type 0 where
  ensure_subscription renew_subscription recreate_subscription sync_folder ingest_email
        classify_email :
      JobType

pub data JobStatus : Type 0 where
  pending running completed failed_retryable failed_review cancelled : JobStatus

pub record GraphJob : Type 0 where
  pub id : ℕ
  pub job_type : JobType
  pub mailbox_id : Option ℕ
  pub folder_id : Option ℕ
  pub email_id : Option ℕ
  pub reason : Option String
  pub payload : Fields
  pub status : JobStatus
  pub priority : ℕ
  pub idempotency_key : String
  pub attempts : ℕ
  pub max_attempts : ℕ
  pub available_at : ℕ
  pub created_at : ℕ
  pub lease_owner : Option String
  pub lease_expires_at : Option ℕ
  pub started_at : Option ℕ
  pub completed_at : Option ℕ
  pub last_error_code : Option String
  pub last_error_message : Option String

abbrev pub Table : Type 0
Table = List GraphJob

-- ACTIVE_JOB_STATUSES
abbrev pub is_active : JobStatus → Bool
is_active pending = true
is_active running = true
is_active _ = false

unfoldable pub is_type : JobType → JobType → Bool
is_type ensure_subscription ensure_subscription = true
is_type renew_subscription renew_subscription = true
is_type recreate_subscription recreate_subscription = true
is_type sync_folder sync_folder = true
is_type ingest_email ingest_email = true
is_type classify_email classify_email = true
is_type _ _ = false

-- SQL equality of two columns: NULL equals nothing.
abbrev pub same_id : Option ℕ → Option ℕ → Bool
same_id (some a) (some b) = a == b
same_id _ _ = false

-- Whether one partial unique index holds both rows under one key.
unfoldable pub same_slot : GraphJob → GraphJob → Bool
unfolding is_type
same_slot j k =
    is_active j.status
    && is_active k.status
    && (is_type j.job_type sync_folder
          && is_type k.job_type sync_folder
          && same_id j.folder_id k.folder_id
        || is_type j.job_type ingest_email
          && is_type k.job_type ingest_email
          && same_id j.email_id k.email_id
        || is_type j.job_type classify_email
          && is_type k.job_type classify_email
          && same_id j.email_id k.email_id)

-- Whether the constraints of the table, its primary key among them, forbid both rows.
unfoldable pub clash : GraphJob → GraphJob → Bool
clash j k = j.id == k.id || str_eq j.idempotency_key k.idempotency_key || same_slot j k

-- Whether the table refuses `j` as the new version of the row with its id.
unfoldable pub refuses_update : Table → GraphJob → Bool
refuses_update jobs j = any (λ k. not (k.id == j.id) && clash j k) jobs

-- `UPDATE ... WHERE id = j.id`
abbrev pub put_row : GraphJob → Table → Table
put_row j jobs = map (λ k. if k.id == j.id then j else k) jobs

-- A change of the fields of one row.
abbrev pub change_row : ℕ → (GraphJob → GraphJob) → Table → Table
change_row i f jobs = map (λ k. if k.id == i then f k else k) jobs
