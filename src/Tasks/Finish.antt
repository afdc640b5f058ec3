-- ===== src/Tasks/Finish.antt =====
-- task_repository.py: _get_running_owned_task and the methods by which the worker that owns a task
-- ends an attempt. Each has the changed columns of the task as a function of its own.
pub mod Ownership
pub mod Endings
use amsz_web.Base.{ℕ, String, Bool, ◌&&◌, Option, none, some, if◌then◌else◌, some_eq}
use amsz_web.Domain.{TaskStatus, AttemptStatus, Json, Fields, status_eq}
use amsz_web.Models.{Task}
use amsz_web.Table.{get}
use amsz_web.Session.{Env, Session, Result, ok, err, Error, ◌>>=◌, set_task}
use amsz_web.Tasks.Events.{truncate, add_event, update_attempt_status}

-- task.status == RUNNING and task.lease_owner == worker_id
abbrev pub is_owned : String → Task → Bool
is_owned worker_id t = status_eq t.status TaskStatus.running && some_eq t.lease_owner worker_id

unfoldable pub owned_task : ℕ → String → Session → Result Task
owned_task task_id worker_id s = elim (get task_id s.tasks) [
  | none ↦ err (Error.not_owned task_id worker_id)
  | some t ↦ if is_owned worker_id t then ok t else err (Error.not_owned task_id worker_id)
]

abbrev pub mark_succeeded_row : Env → Option Json → Task → Task
mark_succeeded_row env result t = record t {
  status = TaskStatus.succeeded;
  result_json = result;
  progress = 100;
  current_stage = some "completed";
  finished_at = some env.now;
  lease_owner = none;
  lease_until = none;
}

unfoldable pub mark_succeeded :
    Env → ℕ → ℕ → String → Option Json → Session → Result (Task × Session)
mark_succeeded env task_id attempt_no worker_id result s = do
  task ← owned_task task_id worker_id s
  let done = mark_succeeded_row env result
  ok (
    done task,
    add_event env task_id "SUCCEEDED" (some task.status) (some TaskStatus.succeeded)
        (some "Task completed successfully") none
        (update_attempt_status env task_id attempt_no AttemptStatus.succeeded none none
          (set_task task_id done s)),
  )

abbrev pub mark_retry_wait_row : Env → String → String → ℕ → Task → Task
mark_retry_wait_row env error_code error_message scheduled_at t = record t {
  status = TaskStatus.retry_wait;
  error_code = some error_code;
  error_message = truncate (some error_message);
  scheduled_at = scheduled_at;
  current_stage = some "retry_wait";
  lease_owner = none;
  lease_until = none;
}

-- the payload of the event RETRY_WAIT
abbrev scheduled_payload : Env → ℕ → Json
scheduled_payload env scheduled_at =
    Json.obj (Fields.field "scheduled_at" (Json.str (env.isoformat scheduled_at)) Fields.end)

unfoldable pub mark_retry_wait :
    Env → ℕ → ℕ → String → String → String → ℕ → Session → Result (Task × Session)
mark_retry_wait env task_id attempt_no worker_id error_code error_message scheduled_at s = do
  task ← owned_task task_id worker_id s
  let done = mark_retry_wait_row env error_code error_message scheduled_at
  ok (
    done task,
    add_event env task_id "RETRY_WAIT" (some task.status) (some TaskStatus.retry_wait)
        (some "Task scheduled for retry") (some (scheduled_payload env scheduled_at))
        (update_attempt_status env task_id attempt_no AttemptStatus.failed (some error_code)
          (some error_message) (set_task task_id done s)),
  )

abbrev pub mark_failed_row : Env → String → String → Task → Task
mark_failed_row env error_code error_message t = record t {
  status = TaskStatus.failed;
  error_code = some error_code;
  error_message = truncate (some error_message);
  current_stage = some "failed";
  finished_at = some env.now;
  lease_owner = none;
  lease_until = none;
}

unfoldable pub mark_failed :
    Env → ℕ → ℕ → String → String → String → AttemptStatus → Session → Result (Task × Session)
mark_failed env task_id attempt_no worker_id error_code error_message attempt_status s = do
  task ← owned_task task_id worker_id s
  let done = mark_failed_row env error_code error_message
  ok (
    done task,
    add_event env task_id "FAILED" (some task.status) (some TaskStatus.failed) (some "Task failed")
        none
        (update_attempt_status env task_id attempt_no attempt_status (some error_code)
          (some error_message) (set_task task_id done s)),
  )

abbrev pub mark_dead_row : Env → String → String → Task → Task
mark_dead_row env error_code error_message t = record t {
  status = TaskStatus.dead;
  error_code = some error_code;
  error_message = truncate (some error_message);
  current_stage = some "dead";
  finished_at = some env.now;
  lease_owner = none;
  lease_until = none;
}

unfoldable pub mark_dead :
    Env → ℕ → ℕ → String → String → String → Session → Result (Task × Session)
mark_dead env task_id attempt_no worker_id error_code error_message s = do
  task ← owned_task task_id worker_id s
  let done = mark_dead_row env error_code error_message
  ok (
    done task,
    add_event env task_id "DEAD" (some task.status) (some TaskStatus.dead)
        (some "Task exhausted retries") none
        (update_attempt_status env task_id attempt_no AttemptStatus.failed (some error_code)
          (some error_message) (set_task task_id done s)),
  )

abbrev pub mark_canceled_row : Env → Task → Task
mark_canceled_row env t = record t {
  status = TaskStatus.canceled;
  current_stage = some "canceled";
  finished_at = some env.now;
  lease_owner = none;
  lease_until = none;
}

unfoldable pub mark_canceled : Env → ℕ → ℕ → String → Session → Result (Task × Session)
mark_canceled env task_id attempt_no worker_id s = do
  task ← owned_task task_id worker_id s
  let done = mark_canceled_row env
  ok (
    done task,
    add_event env task_id "CANCELED" (some task.status) (some TaskStatus.canceled)
        (some "Task canceled during execution") none
        (update_attempt_status env task_id attempt_no AttemptStatus.canceled none none
          (set_task task_id done s)),
  )
