-- ===== src/History/Soundness.antt =====
-- The invariant of the table task holds after every history.
pub mod Requests
pub mod Attempts
use amsz_web.History.Soundness.Attempts.{settle-Sound}
use amsz_web.History.Soundness.Requests.{submit-Sound, fan_out-Sound}
use amsz_web.Tasks.Invariant.Claims.{recover_expired_running_tasks-Sound, claim_tasks-Sound}
use amsz_web.Tasks.Recover.{recover_expired_running_tasks}
use amsz_web.Tasks.Finish.Ownership.{Ending, fails, end_attempt, succeeds, dies, waits, stops}
use amsz_web.Tasks.Invariant.Marks.{
  renew_lease-Sound, end_attempt-Sound, request_cancel-Sound, retry_task-Sound,
  update_progress-Sound,
}
use amsz_web.Worker.{
  run_once, run_claimed_task, Messages, heartbeat, or_failed, unknown_type, returns,
  raises_retryable, compute_backoff, raises_non_retryable, raises_task_error, raises_other,
}
use amsz_web.History.{
  run, ClaimArgs, Call, Row, session_scope, step, settles, submits, fans_out, Outcome, cancels,
  retries, reports, beats, rounds,
}
use amsz_web.Domain.{TaskRole, Json, AttemptStatus}
use amsz_web.Tasks.Family.Refresh.{refresh_parent_state}
use amsz_web.Tasks.Claim.{ClaimedTask, claim_tasks}
use amsz_web.Tasks.Family.Aggregate.{
  schedule_aggregate_task_if_ready, mark_parent_failed, mark_parent_succeeded,
}
use amsz_web.Models.{Task}
use amsz_web.Services.Execution.{
  handle_post_child_update, Reply, update_parent, handle_post_aggregate, drop_task, after,
  parent_as, aggregate_for, handle_post_success, mark_task_failed, handle_post_failure,
  handle_post_pause, mark_task_succeeded, is_szdm, mark_task_retry_wait, mark_task_dead,
  mark_task_canceled,
}
use amsz_web.Tasks.Invariant.Families.{
  transition_parent_to_running-Sound, refresh_parent_state-Sound, mark_parent_failed-Sound,
  mark_parent_succeeded-Sound,
}
use amsz_web.Services.Fanout.{
  dispatch_children, create_fanout_task, child_specs, shards, children_of, payload_items,
  parent_args,
}
use amsz_web.Tasks.Invariant.Creates.{create_task-Sound, schedule_aggregate-Sound}
use amsz_web.Tasks.Invariant.{
  Ensures, Sound, Holds, Sound-commit, Holds-bind, Ensures-after, Ensures-bind, end_scope-Sound,
}
use amsz_web.Services.Commands.{
  TaskCreateRequest, is_internal, external_fanout_task_type, accept, request_args,
}
use amsz_web.Tasks.Create.{
  create_task, create_child_tasks, ChildrenOf, ChildTaskSpec, Created, child_args,
}
use amsz_web.Base.{
  [], ◌∷◌, true, inl, inr, refl, List, Option, String, Bool-cases, str_eq, length, arith, ℕ,
  Option-cases, some, none, All, is_some, Bool, leb, ◌+◌,
}
use amsz_web.Services.Commands
use amsz_web.Tasks.Create
use amsz_web.Session.{ok, err, Env, Session, Result, end_scope, IsPercent, seconds}

round-Sound :
    (env : Env) (law : IsPercent env.percent) (a : ClaimArgs) (limit : ℕ)
    (pick : List (Row Task) → List (Row Task)) (locked : ℕ → Bool) (db : Session)
    → Sound db
    → Sound (run_once env a limit pick locked db).1
unfolding run_once
round-Sound env law a limit pick locked db h =
    end_scope-Sound db _
      (Ensures-bind Sound Sound (recover_expired_running_tasks env pick locked limit db)
        (λ _ s'. claim_tasks env a locked s')
        (recover_expired_running_tasks-Sound env law pick locked limit db h)
        (λ _ s'. claim_tasks-Sound env law a locked s'))
      h

heartbeat-Sound :
    (env : Env) (task : ClaimedTask) (worker : String) (lease : ℕ) (db : Session)
    → Sound db
    → Sound (heartbeat env task worker lease db).1
unfolding heartbeat
heartbeat-Sound env task worker lease db h =
    Sound-commit _ (renew_lease-Sound env task.id task.attempt_no worker lease db h)

-- the float quotients of every clock that a call reads are lawful
abbrev pub Lawful : Env × Call → Type 0
Lawful (env, settles later text task worker outcome) =
    IsPercent env.percent × IsPercent later.percent
Lawful (env, _) = IsPercent env.percent

step-Sound :
    (env : Env) (c : Call) (db : Session) → Lawful (env, c) → Sound db → Sound (step env c db)
step-Sound env (submits r created_by) db law h =
    end_scope-Sound db (Commands.create_task env r created_by db)
      (submit-Sound env r created_by db h) h
step-Sound env (fans_out r created_by) db law h =
    end_scope-Sound db (create_fanout_task env r created_by db)
      (fan_out-Sound env law r created_by db h) h
step-Sound env (cancels id) db law h = Sound-commit _ (request_cancel-Sound env id db h)
step-Sound env (retries id) db law h = Sound-commit _ (retry_task-Sound env id db h)
step-Sound env (reports id worker progress stage) db law h =
    Sound-commit _ (update_progress-Sound id worker progress stage db h)
step-Sound env (beats task worker lease) db law h = heartbeat-Sound env task worker lease db h
step-Sound env (rounds a limit pick locked) db law h = round-Sound env law a limit pick locked db h
step-Sound env (settles later text task worker outcome) db law h =
    settle-Sound env later law.1 task worker text outcome db h

-- After every history of submissions, fan-outs, cancellations, retries, progress reports,
-- heartbeats, worker rounds and ended attempts, from a database that satisfies the invariant, it
-- satisfies it again: a task has an owner and a lease exactly while it is RUNNING, no parent is
-- RUNNING, progress is at most 100, a RUNNING task has a start time and a final one an end time, and
-- ids are distinct. The float quotients are assumed to be at most 100 for a part of a whole.
pub run-Sound :
    (calls : List (Env × Call)) (db : Session) → All Lawful calls → Sound db → Sound (run calls db)
unfolding run
run-Sound [] db law h = h
run-Sound ((env, c) ∷ rest) db law h =
    run-Sound rest (step env c db) law.1 (step-Sound env c db law.0 h)
