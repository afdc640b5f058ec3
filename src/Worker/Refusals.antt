-- ===== src/Worker/Refusals.antt =====
-- worker_runner.py: a worker that has lost its task changes nothing.
use amsz_web.Tasks.Effects.{Guarded-raises}
use amsz_web.Tasks.Finish.{is_owned}
use amsz_web.Table.{get}
use amsz_web.Base.{◌≡◌, String, leb, str_eq, refl, Bool-cases, inl, inr, keep_if, false}
use amsz_web.Worker.{
  Outcome, unknown_type, returns, raises_retryable, raises_non_retryable, raises_task_error,
  raises_other, Task, Messages, run_claimed_task,
}
use amsz_web.Tasks.Finish.Ownership.{
  Ending, succeeds, waits, fails, dies, stops, ended_row, end_attempt, end_attempt-Ends,
}
use amsz_web.Services.Execution.{
  Reply, after, mark_task_failed, mark_task_succeeded, mark_task_retry_wait, mark_task_dead,
  mark_task_canceled,
}
use amsz_web.Tasks.Claim.{ClaimedTask}
use amsz_web.Session.{Env, Session, err, session_scope, Error}
use amsz_web.Domain.{AttemptStatus}

module _ (env later : Env) (text : Messages) (task : ClaimedTask) (worker : String) (db : Session)
    (lost : keep_if (is_owned worker) (get task.id db.tasks) ≡ false) where
  abbrev refusal : Reply
  refusal = (err (Error.not_owned task.id worker), db)

  refused_as :
      (ending : Ending) (k : Task → Session → Reply)
      → after k (session_scope (end_attempt ending env task.id task.attempt_no worker) db) ≡ refusal
  refused_as ending k =
      rw
        (Guarded-raises (is_owned worker) _ (ended_row ending env) task.id db _ lost
          (end_attempt-Ends ending env task.id task.attempt_no worker db))
        refl

  failed-refused :
      (code message : String) → mark_task_failed env later task worker code message db ≡ refusal
  unfolding mark_task_failed
  failed-refused code message = refused_as (fails code message AttemptStatus.failed) _

  -- A worker that does not own its task any more (the lease was recovered, another worker has it, or
  -- it is gone) changes nothing, whatever the outcome of the handler: the error names the task and
  -- the worker, and the database stays as it is, events, attempts and the parent included.
  pub run_claimed_task_lost :
      (outcome : Outcome) → run_claimed_task env later text task worker outcome db ≡ refusal
  unfolding run_claimed_task mark_task_succeeded mark_task_retry_wait mark_task_dead
      mark_task_canceled
  run_claimed_task_lost unknown_type = failed-refused _ _
  run_claimed_task_lost (returns result) = rw (refused_as (succeeds result) _) (failed-refused _ _)
  run_claimed_task_lost (raises_retryable code message) =
      elim (Bool-cases (leb task.max_attempts task.attempt_no)) [
        | inl l ↦ rw l (refused_as (dies code message) _)
        | inr l ↦ rw l (refused_as (waits code message _) _)
      ]
  run_claimed_task_lost (raises_non_retryable code message) =
      elim (Bool-cases (str_eq code "TASK_CANCELED")) [
        | inl c ↦ rw c (refused_as stops _)
        | inr c ↦ rw c (failed-refused code message)
      ]
  run_claimed_task_lost (raises_task_error code message) = failed-refused code message
  run_claimed_task_lost (raises_other message) = failed-refused "UNHANDLED_ERROR" message
