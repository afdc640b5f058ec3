-- ===== src/Szdm.antt =====
-- szdm_repository.py: jobs of many items, whose items become tasks a few at a time. Statuses are texts.
pub mod Dispatch
pub mod Limits
pub mod Items
pub mod Reports
pub mod Ticks
pub mod Once
pub mod Creation
pub mod Handlers
use amsz_web.Base.{none, some}
use amsz_web.Table.Order.{order_by}
use amsz_web.Base.{
  ℕ, List, some, String, if◌then◌else◌, ◌+◌, Bool, Option, take, count, ltb, ◌&&◌, ◌==◌, ◌||◌,
  str_eq, select, not,
}
use amsz_web.Domain.{TaskStatus, TaskRole, Json, Fields, bool}
use amsz_web.Models.{Task}
use amsz_web.Table.{Row, get, modify, flush, query}
use amsz_web.Session.{Env, Session, Result, ok, err, Error, ◌>>=◌, set_task}

-- class SzdmJob, less created_at and updated_at, which the database writes
pub record SzdmJob : Type 0 where
  pub parent_task_id : ℕ
  pub status : String
  pub priority : ℕ
  pub job_s3_prefix : String
  pub input_s3_key : String
  pub item_count : ℕ
  pub dispatched_count : ℕ
  pub running_count : ℕ
  pub succeeded_count : ℕ
  pub failed_count : ℕ
  pub reused_count : ℕ
  pub generated_count : ℕ
  pub max_parallel_children : ℕ
  pub dispatch_batch_size : ℕ
  pub reuse_window_seconds : ℕ
  pub report_status : String
  pub report_s3_key : Option String
  pub report_hash : Option String
  pub report_summary_json : Option Json
  pub report_metric_summary_json : Option Json
  pub finished_at : Option ℕ

-- class SzdmItem, less created_at and updated_at
pub record SzdmItem : Type 0 where
  pub job_id : ℕ
  pub item_index : ℕ
  pub item_key : String
  pub condition_key : String
  pub status : String
  pub reuse_status : String
  pub child_task_id : Option ℕ
  pub priority : ℕ
  pub attempt_no : ℕ
  pub result_s3_key : Option String
  pub result_timestamp : Option ℕ
  pub metrics_json : Option Json
  pub display_summary_json : Option Json
  pub error_code : Option String
  pub error_message : Option String
  pub started_at : Option ℕ
  pub finished_at : Option ℕ

-- the session, which the repositories of tasks and of jobs share
pub record Board : Type 0 where
  pub session : Session
  pub jobs : List (Row SzdmJob)
  pub items : List (Row SzdmItem)

-- the items of a job that the database has with a status, and with a reuse status
abbrev pub with_item_status : ℕ → String → List (Row SzdmItem) → ℕ
with_item_status id status = count (λ r. (r.stored.job_id == id) && str_eq r.stored.status status)

abbrev pub with_reuse_status : ℕ → String → List (Row SzdmItem) → ℕ
with_reuse_status id status =
    count (λ r. (r.stored.job_id == id) && str_eq r.stored.reuse_status status)

abbrev pub counted_job : ℕ → List (Row SzdmItem) → SzdmJob → SzdmJob
counted_job id items j = record j {
  dispatched_count =
      with_item_status id "DISPATCHED" items
      + with_item_status id "RUNNING" items
      + with_item_status id "SUCCEEDED" items
      + with_item_status id "FAILED" items;
  running_count = with_item_status id "RUNNING" items + with_item_status id "DISPATCHED" items;
  succeeded_count = with_item_status id "SUCCEEDED" items;
  failed_count = with_item_status id "FAILED" items;
  reused_count = with_reuse_status id "REUSED" items;
  generated_count = with_reuse_status id "GENERATED" items;
}

-- job.failed_count > 0 and job.report_status == "PENDING", after the count
abbrev pub is_broken : SzdmJob → Bool
is_broken j = ltb 0 j.failed_count && str_eq j.report_status "PENDING"

abbrev pub broken_parent_row : Env → Task → Task
broken_parent_row env t = record t {
  status = TaskStatus.failed;
  current_stage = some "szdm_item_failed";
  finished_at = some env.now;
}

abbrev pub refreshed_job : ℕ → List (Row SzdmItem) → SzdmJob → SzdmJob
refreshed_job id items j =
    let c = counted_job id items j in if is_broken c then record c { status = "FAILED" } else c

-- _require_job and _require_item
abbrev pub require_job : ℕ → Board → Result SzdmJob
require_job id p = elim (get id p.jobs) [
  | none ↦ err (Error.not_found "SZDM job" id)
  | some j ↦ ok j
]

abbrev pub require_item : ℕ → Board → Result SzdmItem
require_item id p = elim (get id p.items) [
  | none ↦ err (Error.not_found "SZDM item" id)
  | some i ↦ ok i
]

-- what is written, for a job that is there; a write to the parent is one to the task with its id, if
-- there is one
abbrev pub refreshed_board : Env → ℕ → Board → SzdmJob → Board
refreshed_board env id p j = record p {
  jobs = modify id (refreshed_job id p.items) p.jobs;
  session =
      if is_broken (counted_job id p.items j)
      then set_task j.parent_task_id (broken_parent_row env) p.session
      else p.session;
}

unfoldable pub refresh_job_counts : Env → ℕ → Board → Result Board
refresh_job_counts env id p = require_job id p >>= λ j. ok (refreshed_board env id p j)

-- job.status in (PARTIALLY_RUNNING, DISPATCHING), and the order, by priority and by updated_at, which
-- an argument gives
abbrev pub claim_dispatchable_jobs : (ℕ → ℕ) → (ℕ → Bool) → ℕ → Board → List (Row SzdmJob)
claim_dispatchable_jobs updated_at locked limit p = take limit (
    order_by
      (λ r q.
        ltb q.stored.priority r.stored.priority
        || ((q.stored.priority == r.stored.priority) && ltb (updated_at r.key) (updated_at q.key)))
      (select (λ r. not (locked r.key))
        (query (λ j. str_eq j.status "PARTIALLY_RUNNING" || str_eq j.status "DISPATCHING") p.jobs)))
