-- ===== src/Tasks/Create.antt =====
-- task_repository.py: create_task and create_child_tasks, with the unique constraint
-- uk_task_idempotency of models.py, which the flush checks.
pub mod Effects
pub mod Keys
pub mod Rows
pub mod Idempotency
use amsz_web.Base.{
  ℕ, suc, String, Bool, true, false, ◌&&◌, ◌||◌, Option, none, some, List, [], ◌∷◌, if◌then◌else◌,
  str_eq, some_eq, truthy, is_some, not,
}
use amsz_web.Domain.{TaskStatus, TaskRole, Json, Fields, role_text}
use amsz_web.Models.{Task, ChildSummary}
use amsz_web.Table.{Row, insert}
use amsz_web.Session.{Env, Session, Result, ok, err, Error, ◌>>=◌}
use amsz_web.Tasks.Events.{add_event}

-- the keyword arguments of create_task
pub record NewTask : Type 0 where
  pub task_type : String
  pub queue_name : String
  pub biz_key : Option String
  pub idempotency_key : Option String
  pub priority : ℕ
  pub max_attempts : ℕ
  pub timeout_seconds : ℕ
  pub scheduled_at : ℕ
  pub payload : Json
  pub created_by : Option String
  pub status : TaskStatus
  pub task_role : TaskRole
  pub parent_task_id : Option ℕ
  pub shard_index : Option ℕ
  pub shard_key : Option String
  pub total_children : ℕ
  pub child_summary : Option ChildSummary

-- Task(...): the columns that create_task does not give have the defaults of models.py. (No caller
-- passes the other child counters or aggregation_dispatched, whose defaults are 0 and False.)
abbrev pub new_row : Env → NewTask → Task
new_row env a = record {
  task_type = a.task_type;
  queue_name = a.queue_name;
  task_role = a.task_role;
  parent_task_id = a.parent_task_id;
  biz_key = a.biz_key;
  idempotency_key = a.idempotency_key;
  shard_index = a.shard_index;
  shard_key = a.shard_key;
  status = a.status;
  priority = a.priority;
  payload_json = a.payload;
  result_json = none;
  error_code = none;
  error_message = none;
  progress = 0;
  current_stage = none;
  total_children = a.total_children;
  succeeded_children = 0;
  failed_children = 0;
  running_children = 0;
  child_summary = a.child_summary;
  aggregation_dispatched = false;
  attempt_no = 0;
  max_attempts = a.max_attempts;
  timeout_seconds = a.timeout_seconds;
  scheduled_at = a.scheduled_at;
  lease_owner = none;
  lease_until = none;
  cancel_requested = false;
  created_by = a.created_by;
  created_at = env.now;
  started_at = none;
  finished_at = none;
}

-- the same task type and the same key
abbrev pub same_key : String → String → Task → Bool
same_key task_type key t = str_eq t.task_type task_type && some_eq t.idempotency_key key

-- the unique constraint: a NULL key takes no part
abbrev pub has_key : String → Option String → List (Row Task) → Bool
has_key task_type none rs = false
has_key task_type (some key) [] = false
has_key task_type (some key) (r ∷ rs) =
    same_key task_type key r.live || has_key task_type (some key) rs

-- session.scalar(select(Task).where(task_type, idempotency_key))
abbrev pub find_key : String → Option String → List (Row Task) → Option (Row Task)
find_key task_type none rs = none
find_key task_type (some key) [] = none
find_key task_type (some key) (r ∷ rs) =
    if same_key task_type key r.stored then some r else find_key task_type (some key) rs

-- the payload of the event CREATED
abbrev created_payload : NewTask → Json
created_payload a = Json.obj (
    Fields.field "task_role" (Json.str (role_text a.task_role)) (
      Fields.field "parent_task_id"
        (elim a.parent_task_id [ none ↦ Json.null | some p ↦ Json.num p ]) Fields.end))

-- what create_task returns, with the id of the task
pub record Created : Type 0 where
  pub id : ℕ
  pub task : Task
  pub created : Bool

-- the part after the test of the idempotency key
unfoldable pub add_task : Env → NewTask → Session → Result (Created × Session)
add_task env a s =
    if has_key a.task_type a.idempotency_key s.tasks
    then err (Error.integrity a.task_type)
    else ok (
      record { id = s.next_task_id; task = new_row env a; created = true },
      add_event env s.next_task_id "CREATED" none (some a.status) (some "Task created")
          (some (created_payload a))
          (record s {
            tasks = insert s.next_task_id (new_row env a) s.tasks;
            next_task_id = suc s.next_task_id;
          }),
    )

unfoldable pub create_task : Env → NewTask → Session → Result (Created × Session)
create_task env a s =
    if truthy a.idempotency_key && not (is_some a.parent_task_id)
    then elim (find_key a.task_type a.idempotency_key s.tasks) [
      | some r ↦ ok (record { id = r.key; task = r.live; created = false }, s)
      | none ↦ add_task env a s
    ]
    else add_task env a s

pub record ChildTaskSpec : Type 0 where
  pub task_type : String
  pub payload : Json
  pub shard_index : ℕ
  pub shard_key : String
  pub priority : ℕ

-- the arguments that create_child_tasks gives all its children
pub record ChildrenOf : Type 0 where
  pub parent_task_id : ℕ
  pub queue_name : String
  pub max_attempts : ℕ
  pub timeout_seconds : ℕ
  pub created_by : Option String

abbrev pub child_args : Env → ChildrenOf → ChildTaskSpec → NewTask
child_args env p spec = record {
  task_type = spec.task_type;
  queue_name = p.queue_name;
  biz_key = none;
  idempotency_key = none;
  priority = spec.priority;
  max_attempts = p.max_attempts;
  timeout_seconds = p.timeout_seconds;
  scheduled_at = env.now;
  payload = spec.payload;
  created_by = p.created_by;
  status = TaskStatus.pending;
  task_role = TaskRole.child;
  parent_task_id = some p.parent_task_id;
  shard_index = some spec.shard_index;
  shard_key = some spec.shard_key;
  total_children = 0;
  child_summary = none;
}

-- The tasks that are returned are the rows that it adds, so the session alone is kept.
unfoldable pub create_child_tasks : Env → ChildrenOf → List ChildTaskSpec → Session → Result Session
create_child_tasks env p [] s = ok s
create_child_tasks env p (spec ∷ specs) s = do
  (_, s') ← create_task env (child_args env p spec) s
  create_child_tasks env p specs s'
