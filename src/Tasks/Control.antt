-- ===== src/Tasks/Control.antt =====
-- task_repository.py: request_cancel and retry_task (the HTTP side), renew_lease,
-- is_cancel_requested and update_progress (the worker that runs a task).
pub mod Effects
pub mod Cancellation
use amsz_web.Base.{ℕ, String, Bool, true, false, ◌||◌, Option, none, some, ◌+◌, if◌then◌else◌, min}
use amsz_web.Domain.{TaskStatus, status_eq}
use amsz_web.Models.{Task}
use amsz_web.Table.{get}
use amsz_web.Session.{Env, Session, set_task, seconds}
use amsz_web.Tasks.Events.{add_event, set_attempt}
use amsz_web.Tasks.Finish.{is_owned}

-- active_statuses, less PENDING
abbrev pub is_active : TaskStatus → Bool
is_active TaskStatus.running = true
is_active TaskStatus.dispatching = true
is_active TaskStatus.partially_running = true
is_active TaskStatus.aggregating = true
is_active _ = false

abbrev pub cancel_pending_row : Env → Task → Task
cancel_pending_row env t = record t {
  status = TaskStatus.canceled;
  finished_at = some env.now;
  cancel_requested = true;
  lease_owner = none;
  lease_until = none;
}

abbrev pub cancel_active_row : Task → Task
cancel_active_row t = record t { cancel_requested = true }

unfoldable pub request_cancel : Env → ℕ → Session → Option Task × Session
request_cancel env task_id s = elim (get task_id s.tasks) [
  | none ↦ (none, s)
  | some t ↦
      if status_eq t.status TaskStatus.pending
      then (
        some (cancel_pending_row env t),
        add_event env task_id "CANCELED" (some t.status) (some TaskStatus.canceled)
            (some "Task canceled before execution") none
            (set_task task_id (cancel_pending_row env) s),
      )
      else if is_active t.status
      then (
        some (cancel_active_row t),
        add_event env task_id "CANCEL_REQUESTED" (some t.status) (some t.status)
            (some "Cancel requested") none (set_task task_id cancel_active_row s),
      )
      else (some t, s)
]

-- task.status in {FAILED, DEAD, CANCELED}
abbrev pub is_retryable : TaskStatus → Bool
is_retryable TaskStatus.failed = true
is_retryable TaskStatus.dead = true
is_retryable TaskStatus.canceled = true
is_retryable _ = false

abbrev pub retry_row : Env → Task → Task
retry_row env t = record t {
  status = TaskStatus.pending;
  error_code = none;
  error_message = none;
  progress = 0;
  current_stage = none;
  result_json = none;
  cancel_requested = false;
  finished_at = none;
  lease_owner = none;
  lease_until = none;
  scheduled_at = env.now;
}

unfoldable pub retry_task : Env → ℕ → Session → Option Task × Session
retry_task env task_id s = elim (get task_id s.tasks) [
  | none ↦ (none, s)
  | some t ↦
      if is_retryable t.status
      then (
        some (retry_row env t),
        add_event env task_id "RETRIED" (some t.status) (some TaskStatus.pending)
            (some "Task manually retried") none (set_task task_id (retry_row env) s),
      )
      else (some t, s)
]

abbrev pub renew_row : Env → ℕ → Task → Task
renew_row env lease_seconds t = record t { lease_until = some (env.now + seconds lease_seconds) }

unfoldable pub renew_lease : Env → ℕ → ℕ → String → ℕ → Session → Bool × Session
renew_lease env task_id attempt_no worker_id lease_seconds s = elim (get task_id s.tasks) [
  | none ↦ (false, s)
  | some t ↦
      if is_owned worker_id t
      then (
        true,
        record (set_task task_id (renew_row env lease_seconds) s) {
          attempts =
              set_attempt task_id attempt_no (λ a. record a { last_heartbeat_at = some env.now })
                s.attempts;
        },
      )
      else (false, s)
]

-- parent_task.status in {FAILED, CANCELED, DEAD}
abbrev pub stops_children : TaskStatus → Bool
stops_children TaskStatus.failed = true
stops_children TaskStatus.canceled = true
stops_children TaskStatus.dead = true
stops_children _ = false

abbrev parent_stopped : Option Task → Bool
parent_stopped none = false
parent_stopped (some p) = p.cancel_requested || stops_children p.status

abbrev asked_to_stop : Option Task → Bool
asked_to_stop none = false
asked_to_stop (some t) = t.cancel_requested

unfoldable pub is_cancel_requested : ℕ → Option ℕ → Session → Bool
is_cancel_requested task_id none s = asked_to_stop (get task_id s.tasks)
is_cancel_requested task_id (some parent_task_id) s =
    asked_to_stop (get task_id s.tasks) || parent_stopped (get parent_task_id s.tasks)

-- A Python integer: `negsuc n` is -(n + 1).
pub data ℤ : Type 0 where
  pos : ℕ → ℤ
  negsuc : ℕ → ℤ

-- max(0, min(progress, 100))
abbrev pub clamp_progress : ℤ → ℕ
clamp_progress (ℤ.pos n) = min n 100
clamp_progress (ℤ.negsuc n) = 0

abbrev pub progress_row : ℤ → Option String → Task → Task
progress_row progress stage t = record t {
  progress = clamp_progress progress;
  current_stage = stage;
}

unfoldable pub update_progress : ℕ → String → ℤ → Option String → Session → Bool × Session
update_progress task_id worker_id progress stage s = elim (get task_id s.tasks) [
  | none ↦ (false, s)
  | some t ↦
      if is_owned worker_id t
      then (true, set_task task_id (progress_row progress stage) s)
      else (false, s)
]
