-- ===== src/Worker/Outcomes.antt =====
-- worker_runner.py: what a worker leaves of a task that has no parent, for each way its handler ends.
use amsz_web.Base.{ℕ, append}
use amsz_web.Models.{Task}
use amsz_web.Table.Laws.{get-flush, get-modify}
use amsz_web.Tasks.Finish.{is_owned}
use amsz_web.Table.{get}
use amsz_web.Worker.Backoff.{compute_backoff-grows}
use amsz_web.Tasks.Finish.Endings.{EndedAs, ended_row-EndedAs}
use amsz_web.Base.{
  zero, suc, min, ◌*◌, ap, sym, ◌≡◌, none, if◌then◌else◌, String, arith, leb, Option, some, ◌+◌,
  str_eq, true, ◌∙◌, ==_refl, refl, Bool-cases, inl, inr,
}
use amsz_web.Worker.{
  compute_backoff, Outcome, unknown_type, returns, raises_retryable, raises_non_retryable,
  raises_task_error, raises_other, Messages, run_claimed_task, or_failed,
}
use amsz_web.Tasks.Finish.Ownership.{
  Ending, succeeds, waits, fails, dies, stops, ended_row, Ends, end_attempt, end_attempt-Ends,
}
use amsz_web.Services.Execution.{
  Reply, after, handle_post_success, handle_post_failure, handle_post_pause,
  handle_post_child_update, handle_post_aggregate, parent_as, mark_task_failed, mark_task_succeeded,
  mark_task_retry_wait, mark_task_dead, mark_task_canceled,
}
use amsz_web.Tasks.Claim.{ClaimedTask}
use amsz_web.Session.{Env, Session, Result, ok, err, end_scope, commit, session_scope, Error}
use amsz_web.Domain.{AttemptStatus, TaskRole, Json}

-- the seconds that a task waits after an attempt: 1 after the first, and twice as many after each
-- further one, but 300 at most
abbrev pub wait_after : ℕ → ℕ
wait_after zero = 1
wait_after (suc zero) = 1
wait_after (suc (suc n)) = min 300 (2 * wait_after (suc n))

compute_backoff-wait_after : (n : ℕ) → compute_backoff n ≡ wait_after n
compute_backoff-wait_after zero = refl
compute_backoff-wait_after (suc zero) = refl
compute_backoff-wait_after (suc (suc n)) =
    (compute_backoff-grows n).2 ∙ ap (λ b. min 300 (2 * b)) (compute_backoff-wait_after (suc n))

-- how the attempt is to end
abbrev pub ending_of : Env → ClaimedTask → Outcome → Ending
ending_of env task unknown_type =
    fails "UNKNOWN_TASK_TYPE" (append "Unknown task type: " task.task_type) AttemptStatus.failed
ending_of env task (returns result) = succeeds result
ending_of env task (raises_retryable code message) =
    if leb task.max_attempts task.attempt_no
    then dies code message
    else waits code message (env.now + wait_after task.attempt_no * 1000000)
ending_of env task (raises_non_retryable code message) =
    if str_eq code "TASK_CANCELED" then stops else fails code message AttemptStatus.failed
ending_of env task (raises_task_error code message) = fails code message AttemptStatus.failed
ending_of env task (raises_other message) = fails "UNHANDLED_ERROR" message AttemptStatus.failed

module _ (env : Env) (task : ClaimedTask) (alone : task.parent_task_id ≡ none) where
  parent_as-none : (role : TaskRole) → parent_as role task ≡ none
  parent_as-none role = ground (arith, alone)

  child_update-alone :
      (by : Option String) (db : Session) → handle_post_child_update env task by db ≡ (ok tt, db)
  unfolding handle_post_child_update
  child_update-alone by db = rw (handle_post_child_update, parent_as-none TaskRole.child) refl

  post_success-alone :
      (result : Option Json) (by : Option String) (db : Session)
      → handle_post_success env task result by db ≡ (ok tt, db)
  unfolding handle_post_success handle_post_aggregate
  post_success-alone result by db =
      rw
        (
          handle_post_success,
          handle_post_aggregate,
          parent_as-none TaskRole.child,
          parent_as-none TaskRole.aggregate,
        )
        (ground arith)

  post_failure-alone :
      (code message : String) (db : Session)
      → handle_post_failure env task code message db ≡ (ok tt, db)
  unfolding handle_post_failure handle_post_aggregate
  post_failure-alone code message db =
      rw
        (
          handle_post_failure,
          handle_post_aggregate,
          parent_as-none TaskRole.child,
          parent_as-none TaskRole.aggregate,
        )
        (ground arith)

  post_pause-alone : (db : Session) → handle_post_pause env task db ≡ (ok tt, db)
  unfolding handle_post_pause
  post_pause-alone db = ground (arith, child_update-alone none db)

-- the reply, and the task after its attempt has ended
abbrev pub Settled : ℕ → Ending → Env → Task → Reply → Type 0
Settled id ending env t (r, db) =
    (r ≡ ok tt) × (t' : Task) × (get id db.tasks ≡ some t') × EndedAs ending env t t'

settled :
    (ending : Ending) (env : Env) (id attempt : ℕ) (worker : String) (db : Session) (t : Task)
    (k : Task → Session → Reply) (r : Result (Task × Session))
    → ((u : Task) (s : Session) → k u s ≡ (ok tt, s))
    → get id db.tasks ≡ some t
    → is_owned worker t ≡ true
    → Ends id worker (ended_row ending env) db r
    → Settled id ending env t (after k (end_scope db r))
settled ending env id attempt worker db t k (ok (u, s)) stop g o (v, g', _, same, w) =
    rw (stop u (commit s)) (
      refl,
      ended_row ending env t,
      get-flush id s.tasks
          ∙ (rw (w.tasks, get-modify id id (ended_row ending env) db.tasks, g, ==_refl id) refl),
      ended_row-EndedAs ending env t,
    )
settled ending env id attempt worker db t k (err e) stop g o (_, f) = cc (rw g at f)

module _ (env later : Env) (text : Messages) (task : ClaimedTask) (worker : String)
    (db : Session) where
  module _ (alone : task.parent_task_id ≡ none) (t : Task) (g : get task.id db.tasks ≡ some t)
      (o : is_owned worker t ≡ true) where
    settles_as :
        (ending : Ending) (k : Task → Session → Reply)
        → ((u : Task) (s : Session) → k u s ≡ (ok tt, s))
        → Settled task.id ending env t
            (after k (session_scope (end_attempt ending env task.id task.attempt_no worker) db))
    settles_as ending k stop =
        settled ending env task.id task.attempt_no worker db t k _ stop g o
          (end_attempt-Ends ending env task.id task.attempt_no worker db)

    failed-Settled :
        (code message : String)
        → Settled task.id
            (fails code message AttemptStatus.failed)
            env
            t
            (mark_task_failed env later task worker code message db)
    unfolding mark_task_failed
    failed-Settled code message =
        settles_as (fails code message AttemptStatus.failed) _
          (λ _ s. post_failure-alone later task alone code message s)

    or_failed-Settled :
        (ending : Ending) (k : Error → Session → Reply) (r : Reply)
        → Settled task.id ending env t r
        → Settled task.id ending env t (or_failed k r)
    or_failed-Settled ending k (ok x, s) h = h
    or_failed-Settled ending k (err e, s) h = cc h.0

    -- What a worker does with the outcome of a handler, for a task that has no parent and that is
    -- RUNNING in its name: it reports no error, and afterwards the task has no owner and no lease, and
    -- the error or the result of the outcome. A retryable error makes it DEAD in its last attempt and
    -- otherwise RETRY_WAIT, to be run again after 1 second, or twice the time of the attempt before,
    -- but 300 seconds at most; TASK_CANCELED makes it CANCELED; a result makes it SUCCEEDED; all
    -- else, an unknown type included, makes it FAILED.
    pub run_claimed_task-Settled :
        (outcome : Outcome)
        → Settled task.id
            (ending_of env task outcome)
            env
            t
            (run_claimed_task env later text task worker outcome db)
    unfolding run_claimed_task mark_task_succeeded mark_task_retry_wait mark_task_dead
        mark_task_canceled
    run_claimed_task-Settled unknown_type = failed-Settled _ _
    run_claimed_task-Settled (returns result) = or_failed-Settled _ _ _ (
        settles_as (succeeds result) _
          (λ u s. post_success-alone later task alone result u.created_by s))
    run_claimed_task-Settled (raises_retryable code message) =
        elim (Bool-cases (leb task.max_attempts task.attempt_no)) [
          | inl l ↦ rw l (
              settles_as (dies code message) _
                (λ _ s. post_failure-alone later task alone code message s))
          | inr l ↦
              rw (l, sym (compute_backoff-wait_after task.attempt_no))
                (settles_as (waits code message _) _ (λ _ s. post_pause-alone later task alone s))
        ]
    run_claimed_task-Settled (raises_non_retryable code message) =
        elim (Bool-cases (str_eq code "TASK_CANCELED")) [
          | inl c ↦ rw c (settles_as stops _ (λ _ s. post_pause-alone later task alone s))
          | inr c ↦ rw c (failed-Settled code message)
        ]
    run_claimed_task-Settled (raises_task_error code message) = failed-Settled code message
    run_claimed_task-Settled (raises_other message) = failed-Settled "UNHANDLED_ERROR" message
