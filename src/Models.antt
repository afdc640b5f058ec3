-- ===== src/Models.antt =====
-- app/infrastructure/datasource/relational/models.py: the rows of the tables task, task_attempt and
-- task_event. A task's id is the key of its row. Times are microseconds. The columns `updated_at` and
-- `version` of task and the ids of attempts and events are read by no code that is modelled.
use amsz_web.Base.{ℕ, String, Bool, Option}
use amsz_web.Domain.{TaskStatus, AttemptStatus, TaskRole, Json}

-- the "detail" dict of _build_child_summary
pub record Detail : Type 0 where
  pub pending : ℕ
  pub running : ℕ
  pub succeeded : ℕ
  pub failed : ℕ
  pub retry_wait : ℕ
  pub canceled : ℕ
  pub dead : ℕ

-- the JSON column child_summary: {} or a detail
pub data ChildSummary : Type 0 where
  empty : ChildSummary
  counts : Detail → ChildSummary

pub record Task : Type 0 where
  pub task_type : String
  pub queue_name : String
  pub task_role : TaskRole
  pub parent_task_id : Option ℕ
  pub biz_key : Option String
  pub idempotency_key : Option String
  pub shard_index : Option ℕ
  pub shard_key : Option String
  pub status : TaskStatus
  pub priority : ℕ
  pub payload_json : Json
  pub result_json : Option Json
  pub error_code : Option String
  pub error_message : Option String
  pub progress : ℕ
  pub current_stage : Option String
  pub total_children : ℕ
  pub succeeded_children : ℕ
  pub failed_children : ℕ
  pub running_children : ℕ
  pub child_summary : Option ChildSummary
  pub aggregation_dispatched : Bool
  pub attempt_no : ℕ
  pub max_attempts : ℕ
  pub timeout_seconds : ℕ
  pub scheduled_at : ℕ
  pub lease_owner : Option String
  pub lease_until : Option ℕ
  pub cancel_requested : Bool
  pub created_by : Option String
  pub created_at : ℕ
  pub started_at : Option ℕ
  pub finished_at : Option ℕ

pub record TaskAttempt : Type 0 where
  pub task_id : ℕ
  pub attempt_no : ℕ
  pub worker_id : String
  pub pod_name : String
  pub status : AttemptStatus
  pub started_at : ℕ
  pub last_heartbeat_at : Option ℕ
  pub finished_at : Option ℕ
  pub error_code : Option String
  pub error_message : Option String

pub record TaskEvent : Type 0 where
  pub task_id : ℕ
  pub event_type : String
  pub from_status : Option TaskStatus
  pub to_status : Option TaskStatus
  pub message : Option String
  pub event_payload : Option Json
  pub created_at : ℕ
