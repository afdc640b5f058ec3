-- ===== src/Tasks/Claim.antt =====
-- task_repository.py: claim_tasks. `locked` says which rows other transactions hold, which
-- FOR UPDATE SKIP LOCKED passes over before the limit is applied.
pub mod Selection
pub mod Held
pub mod Requeued
pub mod Tickets
pub mod Exclusive
use amsz_web.Base.{
  ℕ, suc, ◌+◌, String, Bool, true, false, ◌&&◌, ◌||◌, not, Option, none, some, List, [], ◌∷◌, ◌++◌,
  ◌==◌, if◌then◌else◌, ltb, leb, str_eq, take, add_once, or_else, select,
}
use amsz_web.Domain.{TaskStatus, AttemptStatus, TaskRole, Json, Fields, role_eq}
use amsz_web.Models.{Task, TaskAttempt}
use amsz_web.Table.{Row, query}
use amsz_web.Table.Order.{order_by}
use amsz_web.Session.{Env, Session, Result, ok, ◌>>=◌, set_task, seconds}
use amsz_web.Tasks.Events.{add_event}
use amsz_web.Tasks.Family.Refresh.{refresh_parents}

pub record ClaimedTask : Type 0 where
  pub id : ℕ
  pub task_type : String
  pub task_role : TaskRole
  pub queue_name : String
  pub priority : ℕ
  pub payload : Json
  pub attempt_no : ℕ
  pub max_attempts : ℕ
  pub timeout_seconds : ℕ
  pub parent_task_id : Option ℕ
  pub shard_index : Option ℕ

-- the keyword arguments of claim_tasks
pub record ClaimArgs : Type 0 where
  pub queue_name : String
  pub worker_id : String
  pub pod_name : String
  pub batch_size : ℕ
  pub lease_seconds : ℕ

-- Task.status.in_([PENDING, RETRY_WAIT])
abbrev pub is_waiting : TaskStatus → Bool
is_waiting TaskStatus.pending = true
is_waiting TaskStatus.retry_wait = true
is_waiting _ = false

-- the WHERE clause
abbrev pub is_claimable : Env → String → Task → Bool
is_claimable env queue_name t =
    str_eq t.queue_name queue_name
    && not (role_eq t.task_role TaskRole.parent)
    && is_waiting t.status
    && leb t.scheduled_at env.now

-- ORDER BY priority DESC, scheduled_at, id
abbrev pub claim_before : Row Task → Row Task → Bool
claim_before r q =
    ltb q.stored.priority r.stored.priority
    || ((q.stored.priority == r.stored.priority)
        && (ltb r.stored.scheduled_at q.stored.scheduled_at
            || ((r.stored.scheduled_at == q.stored.scheduled_at) && ltb r.key q.key)))

-- the rows of the SELECT, in its order, before the limit
abbrev pub candidates : Env → ClaimArgs → (ℕ → Bool) → Session → List (Row Task)
candidates env a locked s =
    order_by claim_before
      (select (λ r. not (locked r.key)) (query (is_claimable env a.queue_name) s.tasks))

abbrev pub claimed_row : Env → ClaimArgs → Task → Task
claimed_row env a t = record t {
  status = TaskStatus.running;
  lease_owner = some a.worker_id;
  lease_until = some (env.now + seconds a.lease_seconds);
  attempt_no = suc t.attempt_no;
  started_at = some (or_else t.started_at env.now);
  cancel_requested = false;
  error_code = none;
  error_message = none;
  current_stage = some "claimed";
}

abbrev pub ticket : ℕ → Task → ClaimedTask
ticket id t = record {
  id = id;
  task_type = t.task_type;
  task_role = t.task_role;
  queue_name = t.queue_name;
  priority = t.priority;
  payload = t.payload_json;
  attempt_no = t.attempt_no;
  max_attempts = t.max_attempts;
  timeout_seconds = t.timeout_seconds;
  parent_task_id = t.parent_task_id;
  shard_index = t.shard_index;
}

abbrev new_attempt : Env → ClaimArgs → ℕ → Task → TaskAttempt
new_attempt env a id t = record {
  task_id = id;
  attempt_no = t.attempt_no;
  worker_id = a.worker_id;
  pod_name = a.pod_name;
  status = AttemptStatus.running;
  started_at = env.now;
  last_heartbeat_at = none;
  finished_at = none;
  error_code = none;
  error_message = none;
}

-- parent_ids_to_refresh.add(task.parent_task_id), where the task is a child
abbrev pub note_parent : Task → List ℕ → List ℕ
note_parent t ids =
    if role_eq t.task_role TaskRole.child
    then elim t.parent_task_id [ none ↦ ids | some p ↦ add_once p ids ]
    else ids

-- the body of the loop, on the session
unfoldable pub claim_one : Env → ClaimArgs → Row Task → Session → Session
claim_one env a r s =
    let s' = set_task r.key (claimed_row env a) s in
    add_event env r.key "CLAIMED" (some r.live.status) (some TaskStatus.running)
      (some "Task claimed by worker")
      (some (Json.obj (Fields.field "worker_id" (Json.str a.worker_id) Fields.end)))
      (record s' {
        attempts = s'.attempts ++ new_attempt env a r.key (claimed_row env a r.live) ∷ [];
      })

unfoldable pub claim_all : Env → ClaimArgs → List (Row Task) → Session → Session
claim_all env a [] s = s
claim_all env a (r ∷ rs) s = claim_all env a rs (claim_one env a r s)

unfoldable pub tickets : Env → ClaimArgs → List (Row Task) → List ClaimedTask
tickets env a [] = []
tickets env a (r ∷ rs) = ticket r.key (claimed_row env a r.live) ∷ tickets env a rs

-- Python leaves the order in which the set of parents is visited open; here it is that of the ids'
-- first occurrence.
unfoldable pub noted_parents : List (Row Task) → List ℕ → List ℕ
noted_parents [] ids = ids
noted_parents (r ∷ rs) ids = noted_parents rs (note_parent r.live ids)

unfoldable pub claim_tasks :
    Env → ClaimArgs → (ℕ → Bool) → Session → Result (List ClaimedTask × Session)
claim_tasks env a locked s = do
  let rows = take a.batch_size (candidates env a locked s)
  s' ← refresh_parents env (noted_parents rows []) (claim_all env a rows s)
  ok (tickets env a rows, s')
