-- ===== src/Tasks/Family/Aggregate.antt =====
-- task_repository.py: schedule_aggregate_task_if_ready, mark_parent_succeeded and
-- mark_parent_failed, the end of a fan-in.
use amsz_web.Base.{ℕ, String, Bool, true, ◌||◌, not, Option, none, some, ◌==◌, if◌then◌else◌}
use amsz_web.Domain.{TaskStatus, TaskRole, Json, Fields, status_eq}
use amsz_web.Models.{Task}
use amsz_web.Session.{Env, Session, Result, ok, ◌>>=◌, set_task}
use amsz_web.Tasks.Events.{truncate, add_event}
use amsz_web.Tasks.Create.{NewTask, Created, create_task}
use amsz_web.Tasks.Family.Summary.{parent_for_update, build_child_summary}
use amsz_web.Tasks.Family.Refresh.{counted}

-- the arguments of schedule_aggregate_task_if_ready
pub record AggregateArgs : Type 0 where
  pub parent_task_id : ℕ
  pub aggregate_task_type : String
  pub queue_name : String
  pub priority : ℕ
  pub max_attempts : ℕ
  pub timeout_seconds : ℕ
  pub created_by : Option String

-- {"parent_task_id": id} and the like
abbrev pub id_payload : String → ℕ → Json
id_payload name id = Json.obj (Fields.field name (Json.num id) Fields.end)

abbrev pub aggregate_args : Env → AggregateArgs → NewTask
aggregate_args env a = record {
  task_type = a.aggregate_task_type;
  queue_name = a.queue_name;
  biz_key = none;
  idempotency_key = none;
  priority = a.priority;
  max_attempts = a.max_attempts;
  timeout_seconds = a.timeout_seconds;
  scheduled_at = env.now;
  payload = id_payload "parent_task_id" a.parent_task_id;
  created_by = a.created_by;
  status = TaskStatus.pending;
  task_role = TaskRole.aggregate;
  parent_task_id = some a.parent_task_id;
  shard_index = none;
  shard_key = none;
  total_children = 0;
  child_summary = none;
}

-- the four early returns
abbrev pub is_ready : Task → Bool
is_ready p = not (
    status_eq p.status TaskStatus.failed
    || p.aggregation_dispatched
    || (p.total_children == 0)
    || not (p.succeeded_children == p.total_children))

abbrev pub aggregating_row : Task → Task
aggregating_row t = record t {
  status = TaskStatus.aggregating;
  current_stage = some "aggregating";
  aggregation_dispatched = true;
}

-- The result is the aggregate task, with its id, if one is scheduled.
unfoldable pub schedule_aggregate_task_if_ready :
    Env → AggregateArgs → Session → Result (Option Created × Session)
schedule_aggregate_task_if_ready env a s = do
  parent_task ← parent_for_update a.parent_task_id s
  if not (is_ready parent_task) then ok (none, s) else do
    (made, s') ← create_task env (aggregate_args env a) s
    ok (
      some made,
      add_event env a.parent_task_id "AGGREGATE_SCHEDULED" (some parent_task.status)
          (some TaskStatus.aggregating) (some "Aggregate task scheduled")
          (some (id_payload "aggregate_task_id" made.id))
          (set_task a.parent_task_id aggregating_row s'),
    )

abbrev pub parent_succeeded_row : Env → Option Json → Task → Task
parent_succeeded_row env result t = record t {
  status = TaskStatus.succeeded;
  current_stage = some "completed";
  progress = 100;
  result_json = result;
  finished_at = some env.now;
}

unfoldable pub mark_parent_succeeded : Env → ℕ → Option Json → Session → Result (Task × Session)
mark_parent_succeeded env id result s = do
  parent_task ← parent_for_update id s
  let c = build_child_summary id s
  ok (
    parent_succeeded_row env result (counted c parent_task),
    add_event env id "PARENT_SUCCEEDED" (some parent_task.status) (some TaskStatus.succeeded)
        (some "Parent task aggregation completed successfully") none
        (set_task id (λ t. parent_succeeded_row env result (counted c t)) s),
  )

abbrev pub parent_failed_row : Env → String → String → Task → Task
parent_failed_row env error_code error_message t = record t {
  status = TaskStatus.failed;
  current_stage = some "aggregate_failed";
  error_code = some error_code;
  error_message = truncate (some error_message);
  finished_at = some env.now;
}

unfoldable pub mark_parent_failed : Env → ℕ → String → String → Session → Result (Task × Session)
mark_parent_failed env id error_code error_message s = do
  parent_task ← parent_for_update id s
  let c = build_child_summary id s
  ok (
    parent_failed_row env error_code error_message (counted c parent_task),
    add_event env id "PARENT_FAILED" (some parent_task.status) (some TaskStatus.failed)
        (some "Parent task aggregation failed") none
        (set_task id (λ t. parent_failed_row env error_code error_message (counted c t)) s),
  )
