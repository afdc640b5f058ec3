-- ===== src/Services/Execution.antt =====
-- app/application/services/aggregate/task_execution_service.py: an attempt is ended in one
-- transaction and the parent is told in a second one. The clock is read anew in the second.
pub mod Creator
use amsz_web.Tasks.Family.Refresh.{refresh_parent_state}
use amsz_web.Tasks.Finish.{mark_canceled, mark_retry_wait, mark_dead, mark_failed, mark_succeeded}
use amsz_web.Models.{Task}
use amsz_web.Tasks.Family.Aggregate.{
  AggregateArgs, mark_parent_failed, mark_parent_succeeded, schedule_aggregate_task_if_ready,
}
use amsz_web.Tasks.Claim.{ClaimedTask}
use amsz_web.Domain.{TaskRole, Json, role_eq, AttemptStatus}
use text.Mathlib.Text.{starts_with}
use amsz_web.Base.{ℕ, none, some, String, Option, if◌then◌else◌, Bool, is_some}
use amsz_web.Session.{ok, err, Env, Session, Result, session_scope, ◌>>=◌}

abbrev pub aggregate_task_type : String
aggregate_task_type = "batch.sleep.echo.aggregate"

-- task.task_type.startswith("szdm.")
abbrev pub is_szdm : String → Bool
is_szdm t = starts_with t "szdm."

abbrev pub Reply : Type 0
Reply = Result (Unit {0}) × Session

-- the rest of a method, where the first transaction has committed
abbrev pub after {ℓ} : {A : Type ℓ} → (A → Session → Reply) → Result A × Session → Reply
after k (ok a, db) = k a db
after k (err e, db) = (err e, db)

abbrev pub drop_task : Result (Task × Session) → Result (Unit {0} × Session)
drop_task r = r >>= λ (_, s). ok (tt, s)

abbrev pub aggregate_for : ClaimedTask → ℕ → String → AggregateArgs
aggregate_for task parent_task_id created_by = record {
  parent_task_id = parent_task_id;
  aggregate_task_type = aggregate_task_type;
  queue_name = task.queue_name;
  priority = task.priority;
  max_attempts = task.max_attempts;
  timeout_seconds = task.timeout_seconds;
  created_by = some created_by;
}

-- the body of the transaction of _handle_post_child_update
unfoldable pub update_parent :
    Env → ClaimedTask → ℕ → Option String → Session → Result (Unit {0} × Session)
update_parent env task parent_task_id none s = drop_task (refresh_parent_state env parent_task_id s)
update_parent env task parent_task_id (some created_by) s = do
  (_, s1) ← refresh_parent_state env parent_task_id s
  (_, s2) ← schedule_aggregate_task_if_ready env (aggregate_for task parent_task_id created_by) s1
  ok (tt, s2)

-- the id of the parent, if the task has the role
abbrev pub parent_as : TaskRole → ClaimedTask → Option ℕ
parent_as role task = if role_eq task.task_role role then task.parent_task_id else none

unfoldable pub handle_post_child_update : Env → ClaimedTask → Option String → Session → Reply
handle_post_child_update env task created_by db = elim (parent_as TaskRole.child task) [
  | none ↦ (ok tt, db)
  | some id ↦ session_scope (update_parent env task id created_by) db
]

-- the transaction on the parent of an aggregate task
unfoldable pub handle_post_aggregate :
    ClaimedTask → (ℕ → Session → Result (Task × Session)) → Session → Reply
handle_post_aggregate task body db = elim (parent_as TaskRole.aggregate task) [
  | none ↦ (ok tt, db)
  | some id ↦ session_scope (λ s. drop_task (body id s)) db
]

unfoldable pub handle_post_success :
    Env → ClaimedTask → Option Json → Option String → Session → Reply
handle_post_success env task result created_by db =
    if is_szdm task.task_type
    then (ok tt, db)
    else if is_some (parent_as TaskRole.child task)
    then handle_post_child_update env task created_by db
    else handle_post_aggregate task (λ id. mark_parent_succeeded env id result) db

unfoldable pub handle_post_failure : Env → ClaimedTask → String → String → Session → Reply
handle_post_failure env task error_code error_message db =
    if is_szdm task.task_type
    then (ok tt, db)
    else if is_some (parent_as TaskRole.child task)
    then handle_post_child_update env task none db
    else handle_post_aggregate task (λ id. mark_parent_failed env id error_code error_message) db

-- `if task.task_type.startswith("szdm."): return` before _handle_post_child_update
unfoldable pub handle_post_pause : Env → ClaimedTask → Session → Reply
handle_post_pause env task db =
    if is_szdm task.task_type then (ok tt, db) else handle_post_child_update env task none db

unfoldable pub mark_task_succeeded :
    Env → Env → ClaimedTask → String → Option Json → Session → Reply
mark_task_succeeded env later task worker_id result db =
    after (λ t. handle_post_success later task result t.created_by)
      (session_scope (mark_succeeded env task.id task.attempt_no worker_id result) db)

unfoldable pub mark_task_retry_wait :
    Env → Env → ClaimedTask → String → String → String → ℕ → Session → Reply
mark_task_retry_wait env later task worker_id error_code error_message scheduled_at db =
    after (λ _. handle_post_pause later task)
      (session_scope
        (mark_retry_wait env task.id task.attempt_no worker_id error_code error_message
          scheduled_at)
        db)

unfoldable pub mark_task_failed :
    Env → Env → ClaimedTask → String → String → String → Session → Reply
mark_task_failed env later task worker_id error_code error_message db =
    after (λ _. handle_post_failure later task error_code error_message)
      (session_scope
        (mark_failed env task.id task.attempt_no worker_id error_code error_message
          AttemptStatus.failed)
        db)

unfoldable pub mark_task_dead : Env → Env → ClaimedTask → String → String → String → Session → Reply
mark_task_dead env later task worker_id error_code error_message db =
    after (λ _. handle_post_failure later task error_code error_message)
      (session_scope (mark_dead env task.id task.attempt_no worker_id error_code error_message) db)

unfoldable pub mark_task_canceled : Env → Env → ClaimedTask → String → Session → Reply
mark_task_canceled env later task worker_id db =
    after (λ _. handle_post_pause later task)
      (session_scope (mark_canceled env task.id task.attempt_no worker_id) db)
