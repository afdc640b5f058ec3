-- ===== src/Examples/Data.antt =====
-- The settings, tasks and sessions of the examples.
use amsz_web.Tasks.Claim.{ClaimArgs}
use amsz_web.Tasks.Invariant.{Sound}
use amsz_web.Polymarket.Values.{Builtins, Conversion, Moment}
use amsz_web.Base.{arith, ◌∷◌, none, ℕ, true, [], some, min, decimal, false, ◌*◌, ◌/◌, Bool, refl}
use amsz_web.Domain.{TaskStatus, TaskRole, Json, Items, Fields}
use amsz_web.Models.{Task, ChildSummary}
use amsz_web.Table.{Row}
use amsz_web.Session.{Settings, Env, Session, IsPercent, Result, ok, err}
use amsz_web.Services.Commands.{TaskCreateRequest}

abbrev pub example_settings : Settings
example_settings = record {
  task_event_db_enabled = true;
  task_attempt_cleanup_on_completion = false;
  task_fanout_shard_size = 2;
  task_fanout_max_children = 10;
}

-- `int((c / t) * 100)`, without rounding
abbrev pub whole_percent : ℕ → ℕ → ℕ
whole_percent c t = min 100 (c * 100 / t)

abbrev pub env_at : ℕ → Env
env_at now = record {
  settings = example_settings;
  now = now;
  percent = whole_percent;
  isoformat = decimal;
}

pub whole_percent-IsPercent : IsPercent whole_percent
whole_percent-IsPercent = record { part = λ c t h. omega arith }

abbrev pub empty_payload : Json
empty_payload = Json.obj Fields.end

abbrev pub waiting_task : Task
waiting_task = record {
  task_type = "noop.success";
  queue_name = "default";
  task_role = TaskRole.standalone;
  parent_task_id = none;
  biz_key = none;
  idempotency_key = some "key";
  shard_index = none;
  shard_key = none;
  status = TaskStatus.pending;
  priority = 5;
  payload_json = empty_payload;
  result_json = none;
  error_code = none;
  error_message = none;
  progress = 0;
  current_stage = none;
  total_children = 0;
  succeeded_children = 0;
  failed_children = 0;
  running_children = 0;
  child_summary = none;
  aggregation_dispatched = false;
  attempt_no = 0;
  max_attempts = 3;
  timeout_seconds = 3600;
  scheduled_at = 10;
  lease_owner = none;
  lease_until = none;
  cancel_requested = false;
  created_by = some "client";
  created_at = 10;
  started_at = none;
  finished_at = none;
}

abbrev pub urgent_task : Task
urgent_task = record waiting_task { idempotency_key = none; priority = 9 }

abbrev pub running_task : Task
running_task = record waiting_task {
  idempotency_key = none;
  status = TaskStatus.running;
  attempt_no = 1;
  lease_owner = some "worker";
  lease_until = some 500;
  started_at = some 20;
}

abbrev pub parent_task : Task
parent_task = record waiting_task {
  idempotency_key = none;
  task_type = "batch.sleep.echo";
  task_role = TaskRole.parent;
  status = TaskStatus.partially_running;
  total_children = 1;
  child_summary = some ChildSummary.empty;
}

abbrev pub done_child : Task
done_child = record waiting_task {
  idempotency_key = none;
  task_type = "batch.sleep.echo.shard";
  task_role = TaskRole.child;
  parent_task_id = some 4;
  shard_index = some 0;
  status = TaskStatus.succeeded;
  finished_at = some 30;
  progress = 100;
}

abbrev pub clean : ℕ → Task → Row Task
clean id t = record { key = id; stored = t; live = t }

-- a task that waits, one that waits and is more urgent, one that runs, and a parent with a child
abbrev pub five_tasks : Session
five_tasks = record {
  tasks =
      clean 1 waiting_task
      ∷ clean 2 urgent_task
      ∷ clean 3 running_task
      ∷ clean 4 parent_task
      ∷ clean 5 done_child
      ∷ [];
  attempts = [];
  events = [];
  next_task_id = 6;
}

abbrev pub request : TaskCreateRequest
request = record {
  task_type = "noop.success";
  queue_name = "default";
  biz_key = none;
  idempotency_key = some "new";
  priority = 5;
  max_attempts = 3;
  timeout_seconds = 3600;
  scheduled_at = none;
  payload = empty_payload;
}

abbrev pub fan_out_request : TaskCreateRequest
fan_out_request = record request {
  task_type = "batch.sleep.echo";
  payload = Json.obj (
      Fields.field "items"
        (Json.arr (Items.cons Json.null (Items.cons Json.null (Items.cons Json.null Items.nil))))
        Fields.end);
}

pub five_tasks-Sound : Sound five_tasks
five_tasks-Sound = record {
  rows = (
    (ground arith, refl),
    (
      (ground arith, refl),
      ((ground arith, refl), ((ground arith, refl), ((ground arith, refl), tt))),
    ),
  );
  distinct = (
    (refl, (refl, (refl, (refl, tt)))),
    ((refl, (refl, (refl, tt))), ((refl, (refl, tt)), ((refl, tt), (tt, tt)))),
  );
  below = (omega arith, (omega arith, (omega arith, (omega arith, (omega arith, tt)))));
}

abbrev pub claim_args : ClaimArgs
claim_args = record {
  queue_name = "default";
  worker_id = "worker";
  pod_name = "pod";
  batch_size = 1;
  lease_seconds = 30;
}

abbrev pub unlocked : ℕ → Bool
unlocked id = false

-- the value and the session of a call that returns
abbrev pub value {ℓ} : {A : Type ℓ} → A → Result (A × Session) → A
value a (ok (b, s)) = b
value a (err e) = a

abbrev pub left {ℓ} : {A : Type ℓ} → Result (A × Session) → Session
left (ok (a, s)) = s
left (err e) = five_tasks

-- what Python's builtins do, in short
abbrev pub plain_builtins : Builtins
plain_builtins = record {
  text = λ v. "text";
  float = λ v. Conversion.value "1.0";
  int_of_text = λ t. Conversion.refused;
  int_of_float = λ t. Conversion.refused;
  is_zero = λ t. false;
  strip = λ t. t;
  fromisoformat = λ t. some (Moment.naive 7);
  local = λ t. t;
  dumps = λ v. "payload";
  sha256 = λ t. t;
}
