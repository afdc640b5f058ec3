-- ===== src/Schedules.antt =====
-- system_schedule_repository.py and system_scheduler_service.py: schedules that are due become tasks.
-- A run may fail to end: `none` is the loop of mark_schedule_dispatched that never leaves.
pub mod Slots
pub mod Ticks
use amsz_web.Base.{
  String, some, Option, List, ℕ, ◌∷◌, suc, Bool, append, none, ltb, if◌then◌else◌, ◌+◌, ◌&&◌, take,
  leb, str_eq, [], ◌||◌, select, ◌==◌, not, zero,
}
use amsz_web.Domain.{TaskStatus, TaskRole, Json, bool}
use amsz_web.Table.{Row, flush, insert, modify, query}
use amsz_web.Table.Order.{order_by}
use amsz_web.Session.{Env, Session, Result, ok, err, seconds, commit}
use amsz_web.Tasks.Create.{NewTask, Created, create_task}

-- class SystemSchedule, less created_at and updated_at, which the database writes
pub record SystemSchedule : Type 0 where
  pub schedule_key : String
  pub task_type : String
  pub enabled : Bool
  pub interval_seconds : ℕ
  pub next_run_at : ℕ
  pub last_run_at : Option ℕ
  pub last_task_id : Option ℕ
  pub payload_json : Json
  pub queue_name : String
  pub priority : ℕ
  pub max_attempts : ℕ
  pub timeout_seconds : ℕ

-- the session of a tick, which both repositories share
pub record Planner : Type 0 where
  pub session : Session
  pub schedules : List (Row SystemSchedule)

-- the WHERE clause of claim_due_schedules
abbrev pub is_due : ℕ → SystemSchedule → Bool
is_due now t = t.enabled && leb t.next_run_at now

-- ORDER BY next_run_at, id
abbrev pub due_before : Row SystemSchedule → Row SystemSchedule → Bool
due_before r q =
    ltb r.stored.next_run_at q.stored.next_run_at
    || ((r.stored.next_run_at == q.stored.next_run_at) && ltb r.key q.key)

abbrev pub claim_due_schedules :
    ℕ → ℕ → (ℕ → Bool) → List (Row SystemSchedule) → List (Row SystemSchedule)
claim_due_schedules now limit locked rows =
    take limit (order_by due_before (select (λ r. not (locked r.key)) (query (is_due now) rows)))

-- create_schedule, with the id that the database gives and all arguments given; the unique key on
-- schedule_key is left to the database
abbrev pub create_schedule :
    ℕ → SystemSchedule → List (Row SystemSchedule) → List (Row SystemSchedule)
create_schedule id t rows = insert id (record t { last_run_at = none; last_task_id = none }) rows

abbrev pub get_schedule : String → List (Row SystemSchedule) → Option (Row SystemSchedule)
get_schedule key [] = none
get_schedule key (r ∷ rs) = if str_eq r.stored.schedule_key key then some r else get_schedule key rs

-- while next_run_at <= dispatched_at: next_run_at += interval, on fuel
abbrev pub advance : (fuel interval dispatched_at next_run_at : ℕ) → Option ℕ
advance zero interval dispatched_at next_run_at = none
advance (suc fuel) interval dispatched_at next_run_at =
    let rest = advance fuel interval dispatched_at (next_run_at + interval) in
    if leb next_run_at dispatched_at then rest else some next_run_at

abbrev pub dispatched_schedule : ℕ → ℕ → ℕ → SystemSchedule → SystemSchedule
dispatched_schedule task_id dispatched_at next t = record t {
  last_task_id = some task_id;
  last_run_at = some dispatched_at;
  next_run_at = next;
}

-- mark_schedule_dispatched: the fuel is two more than the time of the dispatch, in microseconds
unfoldable pub mark_schedule_dispatched :
    Row SystemSchedule → ℕ → ℕ → List (Row SystemSchedule) → Option (List (Row SystemSchedule))
mark_schedule_dispatched r task_id dispatched_at rows =
    elim (advance (suc (suc dispatched_at)) (seconds r.live.interval_seconds) dispatched_at
      r.live.next_run_at) [
        | none ↦ none
        | some next ↦ some (modify r.key (dispatched_schedule task_id dispatched_at next) rows)
      ]

-- _build_schedule_idempotency_key
abbrev pub schedule_idempotency_key : Env → SystemSchedule → String
schedule_idempotency_key env t =
    append "schedule:" (append t.schedule_key (append ":" (env.isoformat t.next_run_at)))

-- the call of create_task in tick
abbrev pub schedule_args : Env → SystemSchedule → NewTask
schedule_args env t = record {
  task_type = t.task_type;
  queue_name = t.queue_name;
  biz_key = some t.schedule_key;
  idempotency_key = some (schedule_idempotency_key env t);
  priority = t.priority;
  max_attempts = t.max_attempts;
  timeout_seconds = t.timeout_seconds;
  scheduled_at = env.now;
  payload = t.payload_json;
  created_by = some "system-scheduler";
  status = TaskStatus.pending;
  task_role = TaskRole.standalone;
  parent_task_id = none;
  shard_index = none;
  shard_key = none;
  total_children = 0;
  child_summary = none;
}

-- a part of a run that may not end, and then the rest of it
abbrev pub and_then {ℓ κ} :
    {A : Type ℓ} {B : Type κ} → Option (Result A) → (A → Option (Result B)) → Option (Result B)
and_then none k = none
and_then (some (err e)) k = some (err e)
and_then (some (ok a)) k = k a

-- the schedule is marked with the id of the task, new or found
unfoldable pub mark_created :
    Env → Row SystemSchedule → Planner → Created × Session → Option (Result (Bool × Planner))
mark_created env r p (m, s) = elim (mark_schedule_dispatched r m.id env.now p.schedules) [
  | none ↦ none
  | some rows ↦ some (ok (m.created, record { session = s; schedules = rows }))
]

-- the body of the loop of tick
unfoldable pub dispatch : Env → Row SystemSchedule → Planner → Option (Result (Bool × Planner))
dispatch env r p =
    and_then (some (create_task env (schedule_args env r.live) p.session)) (mark_created env r p)

unfoldable pub dispatch_all :
    Env → List (Row SystemSchedule) → ℕ → Planner → Option (Result (ℕ × Planner))
dispatch_all env [] n p = some (ok (n, p))
dispatch_all env (r ∷ rs) n p =
    and_then (dispatch env r p)
      (λ (created, p'). dispatch_all env rs (if created then suc n else n) p')

unfoldable pub tick : Env → ℕ → (ℕ → Bool) → Planner → Option (Result (ℕ × Planner))
tick env max_due_schedules locked p =
    dispatch_all env (claim_due_schedules env.now max_due_schedules locked p.schedules) 0 p

-- the commit of the session
abbrev pub commit_planner : Planner → Planner
commit_planner p = record { session = commit p.session; schedules = flush p.schedules }
