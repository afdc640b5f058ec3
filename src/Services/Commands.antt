-- ===== src/Services/Commands.antt =====
-- app/application/services/base/task_command_service.py, and the request of contracts/http/task.py
-- (whose ranges pydantic checks before the service is called).
use amsz_web.Domain.{TaskStatus, Json, TaskRole}
use amsz_web.Session.{◌>>=◌, Env, Session, Result, err, Error, ok}
use amsz_web.Tasks.Create.{Created, NewTask}
use amsz_web.Tasks.Create
use amsz_web.Base.{ℕ, none, String, Option, Bool, str_eq, or_else, ◌||◌, if◌then◌else◌}

pub record TaskCreateRequest : Type 0 where
  pub task_type : String
  pub queue_name : String
  pub biz_key : Option String
  pub idempotency_key : Option String
  pub priority : ℕ
  pub max_attempts : ℕ
  pub timeout_seconds : ℕ
  pub scheduled_at : Option ℕ
  pub payload : Json

-- EXTERNAL_FANOUT_TASK_TYPE and INTERNAL_TASK_TYPES
abbrev pub external_fanout_task_type : String
external_fanout_task_type = "batch.sleep.echo"

abbrev pub is_internal : String → Bool
is_internal t = str_eq t "batch.sleep.echo.shard" || str_eq t "batch.sleep.echo.aggregate"

abbrev pub request_args : Env → TaskCreateRequest → Option String → NewTask
request_args env r created_by = record {
  task_type = r.task_type;
  queue_name = r.queue_name;
  biz_key = r.biz_key;
  idempotency_key = r.idempotency_key;
  priority = r.priority;
  max_attempts = r.max_attempts;
  timeout_seconds = r.timeout_seconds;
  scheduled_at = or_else r.scheduled_at env.now;
  payload = r.payload;
  created_by = created_by;
  status = TaskStatus.pending;
  task_role = TaskRole.standalone;
  parent_task_id = none;
  shard_index = none;
  shard_key = none;
  total_children = 0;
  child_summary = none;
}

-- the reply: id, status and whether the task is new
pub record Accepted : Type 0 where
  pub task_id : ℕ
  pub status : TaskStatus
  pub created : Bool

abbrev pub accept : Created → Accepted
accept m = record { task_id = m.id; status = m.task.status; created = m.created }

unfoldable pub create_task :
    Env → TaskCreateRequest → Option String → Session → Result (Accepted × Session)
create_task env r created_by s =
    if is_internal r.task_type
    then err (Error.invalid "Internal task types cannot be submitted directly")
    else if str_eq r.task_type external_fanout_task_type
    then err (Error.invalid "Fan-out task type must be handled by orchestration service")
    else do (m, s') ← Create.create_task env (request_args env r created_by) s; ok (accept m, s')
