-- ===== src/History/Soundness/Attempts.antt =====
-- The transactions of app/application/task_execution_service.py and of
-- app/infrastructure/runtime/worker_runner.py keep the invariant of the table task.
use amsz_web.Tasks.Finish.Ownership.{Ending, fails, end_attempt, succeeds, dies, waits, stops}
use amsz_web.Tasks.Invariant.Marks.{end_attempt-Sound}
use amsz_web.Worker.{
  run_claimed_task, Messages, or_failed, unknown_type, returns, raises_retryable, compute_backoff,
  raises_non_retryable, raises_task_error, raises_other,
}
use amsz_web.History.{session_scope, step, Outcome}
use amsz_web.Domain.{TaskRole, Json, AttemptStatus}
use amsz_web.Tasks.Family.Refresh.{refresh_parent_state}
use amsz_web.Tasks.Claim.{ClaimedTask}
use amsz_web.Tasks.Family.Aggregate.{
  schedule_aggregate_task_if_ready, mark_parent_failed, mark_parent_succeeded,
}
use amsz_web.Models.{Task}
use amsz_web.Services.Execution.{
  handle_post_child_update, Reply, update_parent, handle_post_aggregate, drop_task, after,
  parent_as, aggregate_for, handle_post_success, mark_task_failed, handle_post_failure,
  handle_post_pause, mark_task_succeeded, is_szdm, mark_task_retry_wait, mark_task_dead,
  mark_task_canceled,
}
use amsz_web.Tasks.Invariant.Families.{
  refresh_parent_state-Sound, mark_parent_failed-Sound, mark_parent_succeeded-Sound,
}
use amsz_web.Tasks.Invariant.Creates.{schedule_aggregate-Sound}
use amsz_web.Tasks.Invariant.{Ensures, Sound, Ensures-bind, end_scope-Sound}
use amsz_web.Base.{
  inl, inr, Option, String, Bool-cases, str_eq, ℕ, Option-cases, some, none, is_some, leb, ◌+◌,
}
use amsz_web.Session.{ok, err, Env, Session, Result, IsPercent, seconds}

after-Sound {ℓ} :
    {A : Type ℓ} (k : A → Session → Reply) (x : Result A × Session)
    → Sound x.1
    → ((a : A) (db : Session) → Sound db → Sound (k a db).1)
    → Sound (after k x).1
after-Sound k (ok a, db) h step = step a db h
after-Sound k (err e, db) h step = h

-- the transactions of task_execution_service.py
module _ (env : Env) (law : IsPercent env.percent) where
  drop_task-Sound : (r : Result (Task × Session)) → Ensures Sound r → Ensures Sound (drop_task r)
  drop_task-Sound (ok (t, s)) h = h
  drop_task-Sound (err e) h = tt

  update_parent-Sound :
      (task : ClaimedTask) (id : ℕ) (created_by : Option String) (s : Session)
      → Sound s
      → Ensures Sound (update_parent env task id created_by s)
  unfolding update_parent
  update_parent-Sound task id none s h =
      drop_task-Sound (refresh_parent_state env id s) (refresh_parent_state-Sound env law id s h)
  update_parent-Sound task id (some c) s h =
      Ensures-bind Sound Sound (refresh_parent_state env id s) _
        (refresh_parent_state-Sound env law id s h)
        λ _ s1 h1.
          Ensures-bind Sound Sound
            (schedule_aggregate_task_if_ready env (aggregate_for task id c) s1)
            (λ _ s2. ok (tt, s2)) (schedule_aggregate-Sound env (aggregate_for task id c) s1 h1)
            (λ _ s2 k. k)

  child_update-Sound :
      (task : ClaimedTask) (created_by : Option String) (db : Session)
      → Sound db
      → Sound (handle_post_child_update env task created_by db).1
  unfolding handle_post_child_update
  child_update-Sound task created_by db h = elim (Option-cases (parent_as TaskRole.child task)) [
    | inl e ↦ rw (e, handle_post_child_update) h
    | inr (id, e) ↦
        rw (e, handle_post_child_update)
          (end_scope-Sound db (update_parent env task id created_by db)
            (update_parent-Sound task id created_by db h) h)
  ]

  aggregate_update-Sound :
      (task : ClaimedTask) (body : ℕ → Session → Result (Task × Session)) (db : Session)
      → ((id : ℕ) → Ensures Sound (body id db))
      → Sound db
      → Sound (handle_post_aggregate task body db).1
  unfolding handle_post_aggregate
  aggregate_update-Sound task body db step h =
      elim (Option-cases (parent_as TaskRole.aggregate task)) [
        | inl e ↦ rw (e, handle_post_aggregate) h
        | inr (id, e) ↦
            rw (e, handle_post_aggregate)
              (end_scope-Sound db (drop_task (body id db)) (drop_task-Sound (body id db) (step id))
                h)
      ]

  post_success-Sound :
      (task : ClaimedTask) (result : Option Json) (created_by : Option String) (db : Session)
      → Sound db
      → Sound (handle_post_success env task result created_by db).1
  unfolding handle_post_success
  post_success-Sound task result created_by db h =
      let child = child_update-Sound task created_by db h in
      let parent =
        aggregate_update-Sound task (λ id. mark_parent_succeeded env id result) db
          (λ id. mark_parent_succeeded-Sound env law id result db h) h in
      elim (Bool-cases (is_szdm task.task_type)) [
        | inl z ↦ rw z h
        | inr z ↦ elim (Bool-cases (is_some (parent_as TaskRole.child task))) [
          | inl c ↦ rw (z, c) child
          | inr c ↦ rw (z, c) parent
        ]
      ]

  post_failure-Sound :
      (task : ClaimedTask) (code message : String) (db : Session)
      → Sound db
      → Sound (handle_post_failure env task code message db).1
  unfolding handle_post_failure
  post_failure-Sound task code message db h =
      let child = child_update-Sound task none db h in
      let parent =
        aggregate_update-Sound task (λ id. mark_parent_failed env id code message) db
          (λ id. mark_parent_failed-Sound env law id code message db h) h in
      elim (Bool-cases (is_szdm task.task_type)) [
        | inl z ↦ rw z h
        | inr z ↦ elim (Bool-cases (is_some (parent_as TaskRole.child task))) [
          | inl c ↦ rw (z, c) child
          | inr c ↦ rw (z, c) parent
        ]
      ]

  post_pause-Sound :
      (task : ClaimedTask) (db : Session) → Sound db → Sound (handle_post_pause env task db).1
  unfolding handle_post_pause
  post_pause-Sound task db h = elim (Bool-cases (is_szdm task.task_type)) [
    | inl z ↦ rw z h
    | inr z ↦ rw z (child_update-Sound task none db h)
  ]

-- an attempt is ended, and then the second transaction runs
ended-Sound :
    (env : Env) (ending : Ending) (task : ClaimedTask) (worker : String)
    (k : Task → Session → Reply) (db : Session)
    → ((t : Task) (s : Session) → Sound s → Sound (k t s).1)
    → Sound db
    → Sound (after k (session_scope (end_attempt ending env task.id task.attempt_no worker) db)).1
ended-Sound env ending task worker k db step h =
    after-Sound k (session_scope (end_attempt ending env task.id task.attempt_no worker) db)
      (end_scope-Sound db _ (end_attempt-Sound ending env task.id task.attempt_no worker db h) h)
      step

module _ (env later : Env) (law : IsPercent later.percent) (task : ClaimedTask)
    (worker : String) where
  task_failed-Sound :
      (code message : String) (db : Session)
      → Sound db
      → Sound (mark_task_failed env later task worker code message db).1
  unfolding mark_task_failed
  task_failed-Sound code message db =
      ended-Sound env (fails code message AttemptStatus.failed) task worker _ db
        (λ _ s. post_failure-Sound later law task code message s)

  or_failed-Sound :
      (text : Messages) (x : Reply)
      → Sound x.1
      → Sound
          (or_failed (λ e. mark_task_failed env later task worker "UNHANDLED_ERROR" (text e)) x).1
  or_failed-Sound text (ok u, db) h = h
  or_failed-Sound text (err e, db) h = task_failed-Sound "UNHANDLED_ERROR" (text e) db h

  pub settle-Sound :
      (text : Messages) (outcome : Outcome) (db : Session)
      → Sound db
      → Sound (run_claimed_task env later text task worker outcome db).1
  unfolding run_claimed_task mark_task_succeeded mark_task_retry_wait mark_task_dead
      mark_task_canceled
  settle-Sound text unknown_type db h = task_failed-Sound _ _ db h
  settle-Sound text (returns result) db h = or_failed-Sound text _ (
      ended-Sound env (succeeds result) task worker _ db
        (λ t s. post_success-Sound later law task result t.created_by s) h)
  settle-Sound text (raises_retryable code message) db h =
      elim (Bool-cases (leb task.max_attempts task.attempt_no)) [
        | inl l ↦ rw l (
            ended-Sound env (dies code message) task worker _ db
              (λ _ s. post_failure-Sound later law task code message s) h)
        | inr l ↦ rw l (
            ended-Sound env
              (waits code message (env.now + seconds (compute_backoff task.attempt_no))) task worker
              _ db (λ _ s. post_pause-Sound later law task s) h)
      ]
  settle-Sound text (raises_non_retryable code message) db h =
      elim (Bool-cases (str_eq code "TASK_CANCELED")) [
        | inl c ↦
            rw c
              (ended-Sound env stops task worker _ db (λ _ s. post_pause-Sound later law task s) h)
        | inr c ↦ rw c (task_failed-Sound code message db h)
      ]
  settle-Sound text (raises_task_error code message) db h = task_failed-Sound code message db h
  settle-Sound text (raises_other message) db h = task_failed-Sound "UNHANDLED_ERROR" message db h
