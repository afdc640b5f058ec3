-- ===== src/Tasks/Family/Summary.antt =====
-- task_repository.py: _get_parent_task_for_update, _get_child_tasks, _build_child_summary and
-- load_child_results.
use amsz_web.Base.{
  ℕ, suc, String, Bool, true, false, ◌&&◌, ◌||◌, Option, none, some, List, [], ◌∷◌, ◌==◌,
  if◌then◌else◌, ltb, keep_if, length,
}
use amsz_web.Domain.{TaskStatus, TaskRole, Json, role_eq, status_eq}
use amsz_web.Models.{Task, Detail}
use amsz_web.Table.{Row, get, query}
use amsz_web.Table.Order.{order_by}
use amsz_web.Session.{Session, Result, ok, err, Error}

-- parent_task.task_role == PARENT
abbrev pub is_parent : Task → Bool
is_parent t = role_eq t.task_role TaskRole.parent

unfoldable pub parent_for_update : ℕ → Session → Result Task
parent_for_update id s = elim (get id s.tasks) [
  | none ↦ err (Error.not_parent id)
  | some t ↦ if is_parent t then ok t else err (Error.not_parent id)
]

-- Task.parent_task_id == parent_task_id and Task.task_role == CHILD
abbrev pub is_child_of : ℕ → Task → Bool
is_child_of id t = keep_if (λ p. p == id) t.parent_task_id && role_eq t.task_role TaskRole.child

-- ORDER BY shard_index, id; NULL comes first
abbrev shard_before : Option ℕ → ℕ → Option ℕ → ℕ → Bool
shard_before none i none j = ltb i j
shard_before none i (some b) j = true
shard_before (some a) i none j = false
shard_before (some a) i (some b) j = ltb a b || ((a == b) && ltb i j)

abbrev pub child_before : Row Task → Row Task → Bool
child_before r q = shard_before r.stored.shard_index r.key q.stored.shard_index q.key

unfoldable pub child_tasks : ℕ → Session → List (Row Task)
child_tasks id s = order_by child_before (query (is_child_of id) s.tasks)

abbrev pub no_children : Detail
no_children = record {
  pending = 0;
  running = 0;
  succeeded = 0;
  failed = 0;
  retry_wait = 0;
  canceled = 0;
  dead = 0;
}

-- the `if`/`elif` ladder of the loop
unfoldable pub count_status : TaskStatus → Detail → Detail
count_status TaskStatus.pending d = record d { pending = suc d.pending }
count_status TaskStatus.running d = record d { running = suc d.running }
count_status TaskStatus.retry_wait d = record d { retry_wait = suc d.retry_wait }
count_status TaskStatus.succeeded d = record d { succeeded = suc d.succeeded }
count_status TaskStatus.failed d = record d { failed = suc d.failed }
count_status TaskStatus.canceled d = record d { failed = suc d.failed; canceled = suc d.canceled }
count_status TaskStatus.dead d = record d { failed = suc d.failed; dead = suc d.dead }
count_status _ d = d

unfoldable pub count_children : List (Row Task) → Detail → Detail
count_children [] d = d
count_children (r ∷ rs) d = count_children rs (count_status r.live.status d)

pub record Summary : Type 0 where
  pub total : ℕ
  pub succeeded : ℕ
  pub failed : ℕ
  pub running : ℕ
  pub detail : Detail

abbrev pub summary_of : List (Row Task) → Summary
summary_of rs =
    let d = count_children rs no_children in
    record {
      total = length rs;
      succeeded = d.succeeded;
      failed = d.failed;
      running = d.running;
      detail = d;
    }

unfoldable pub build_child_summary : ℕ → Session → Summary
build_child_summary id s = summary_of (child_tasks id s)

-- an entry of load_child_results
pub record ChildResult : Type 0 where
  pub task_id : ℕ
  pub shard_index : Option ℕ
  pub shard_key : Option String
  pub result : Option Json

abbrev pub result_of : Row Task → ChildResult
result_of r = record {
  task_id = r.key;
  shard_index = r.live.shard_index;
  shard_key = r.live.shard_key;
  result = r.live.result_json;
}

unfoldable pub results_of : List (Row Task) → List ChildResult
results_of [] = []
results_of (r ∷ rs) =
    if status_eq r.live.status TaskStatus.succeeded
    then result_of r ∷ results_of rs
    else results_of rs

unfoldable pub load_child_results : ℕ → Session → List ChildResult
load_child_results id s = results_of (child_tasks id s)
