-- ===== src/Worker.antt =====
-- app/infrastructure/runtime/worker_runner.py: one round of the worker, and what it does with the
-- outcome of a handler. Handlers, threads and the scheduler tick are not part of this file.
pub mod Outcomes
pub mod Refusals
pub mod Backoff
pub mod SchedulerTick
use amsz_web.Tasks.Recover.{recover_expired_running_tasks}
use amsz_web.Models.{Task}
use amsz_web.Table.{Row}
use amsz_web.Tasks.Control.{renew_lease, is_cancel_requested}
use amsz_web.Services.Execution.{
  Reply, mark_task_failed, mark_task_succeeded, mark_task_dead, mark_task_retry_wait,
  mark_task_canceled,
}
use amsz_web.Tasks.Claim.{ClaimedTask, ClaimArgs, claim_tasks}
use amsz_web.Domain.{Json}
use amsz_web.Base.{
  ℕ, Option, min, String, ◌^◌, ◌-◌, Bool, List, not, append, ◌||◌, if◌then◌else◌, leb, ◌+◌, str_eq,
}
use amsz_web.Session.{◌>>=◌, ok, err, Env, Error, Session, Result, session_scope, commit, seconds}

-- _compute_backoff, in seconds; `-` stops at 0, as max(attempt_no - 1, 0) does
abbrev pub compute_backoff : ℕ → ℕ
compute_backoff attempt_no = min 300 (2 ^ (attempt_no - 1))

-- how a handler ends: it returns, or raises one of domain/exceptions.py or any other exception; or
-- there is no handler for the type
pub data Outcome : Type 0 where
  unknown_type : Outcome
  returns : Option Json → Outcome
  raises_retryable : (error_code message : String) → Outcome
  raises_non_retryable : (error_code message : String) → Outcome
  raises_task_error : (error_code message : String) → Outcome
  raises_other : (message : String) → Outcome

-- str(exc) of the ValueErrors of the service
abbrev pub Messages : Type 0
Messages = Error → String

-- `except Exception` also takes what mark_task_succeeded raises.
abbrev pub or_failed : (Error → Session → Reply) → Reply → Reply
or_failed k (ok u, db) = (ok u, db)
or_failed k (err e, db) = k e db

unfoldable pub run_claimed_task :
    Env → Env → Messages → ClaimedTask → String → Outcome → Session → Reply
run_claimed_task env later text task worker_id unknown_type db =
    mark_task_failed env later task worker_id "UNKNOWN_TASK_TYPE"
      (append "Unknown task type: " task.task_type) db
run_claimed_task env later text task worker_id (returns result) db =
    or_failed (λ e. mark_task_failed env later task worker_id "UNHANDLED_ERROR" (text e))
      (mark_task_succeeded env later task worker_id result db)
run_claimed_task env later text task worker_id (raises_retryable error_code message) db =
    if leb task.max_attempts task.attempt_no
    then mark_task_dead env later task worker_id error_code message db
    else mark_task_retry_wait env later task worker_id error_code message
        (env.now + seconds (compute_backoff task.attempt_no)) db
run_claimed_task env later text task worker_id (raises_non_retryable error_code message) db =
    if str_eq error_code "TASK_CANCELED"
    then mark_task_canceled env later task worker_id db
    else mark_task_failed env later task worker_id error_code message db
run_claimed_task env later text task worker_id (raises_task_error error_code message) db =
    mark_task_failed env later task worker_id error_code message db
run_claimed_task env later text task worker_id (raises_other message) db =
    mark_task_failed env later task worker_id "UNHANDLED_ERROR" message db

-- the transaction of run_once: expired leases are recovered, then tasks are claimed
unfoldable pub run_once :
    Env
    → ClaimArgs
    → ℕ
    → (List (Row Task) → List (Row Task))
    → (ℕ → Bool)
    → Session
    → Result (List ClaimedTask) × Session
run_once env a recover_limit pick locked = session_scope λ s. do
  (_, s') ← recover_expired_running_tasks env pick locked recover_limit s
  claim_tasks env a locked s'

-- one round of _heartbeat_loop: the lease is renewed, and the answer is whether to stop the handler
unfoldable pub heartbeat : Env → ClaimedTask → String → ℕ → Session → Bool × Session
heartbeat env task worker_id lease_seconds db =
    let (renewed, s) = renew_lease env task.id task.attempt_no worker_id lease_seconds db in
    (not renewed || is_cancel_requested task.id task.parent_task_id s, commit s)
