-- ===== src/Services/Fanout.antt =====
-- app/application/services/aggregate/task_orchestration_service.py: a fan-out request becomes a
-- parent task and a child task for each shard of its items.
pub mod Shards
use amsz_web.Models.{ChildSummary}
use amsz_web.Tasks.Family.Refresh.{transition_parent_to_running}
use amsz_web.Tasks.Create.{
  create_task, ChildTaskSpec, ChildrenOf, Created, NewTask, create_child_tasks,
}
use amsz_web.Services.Commands.{TaskCreateRequest, Accepted, request_args}
use amsz_web.Domain.{Items, Json, Fields, TaskStatus, TaskRole}
use amsz_web.Session.{◌>>=◌, Env, Session, Result, err, ok, Error}
use amsz_web.Base.{
  true, false, ℕ, none, some, String, List, Option, length, [], Bool, ◌∷◌, suc, if◌then◌else◌,
  append, str_eq, decimal, take, drop, not, zero, ◌==◌, ltb,
}

-- request.payload.get("items"), where it is a list
abbrev pub get_field : String → Fields → Option Json
get_field name Fields.end = none
get_field name (Fields.field k v rest) = if str_eq k name then some v else get_field name rest

abbrev pub to_list : Items → List Json
to_list Items.nil = []
to_list (Items.cons x xs) = x ∷ to_list xs

abbrev pub of_list : List Json → Items
of_list [] = Items.nil
of_list (x ∷ xs) = Items.cons x (of_list xs)

abbrev list_items : Option Json → List Json
list_items (some (Json.arr xs)) = to_list xs
list_items _ = []

abbrev pub payload_items : Json → List Json
payload_items (Json.obj fs) = list_items (get_field "items" fs)
payload_items _ = []

-- [items[i:i + size] for i in range(0, len(items), size)]; `rounds` bounds the number of slices
unfoldable pub slices {ℓ} : {A : Type ℓ} → ℕ → ℕ → List A → List (List A)
slices rounds size [] = []
slices zero size (x ∷ xs) = []
slices (suc rounds) size (x ∷ xs) = take size (x ∷ xs) ∷ slices rounds size (drop size (x ∷ xs))

unfoldable pub shards {ℓ} : {A : Type ℓ} → ℕ → List A → List (List A)
unfolding slices
shards size items = slices (length items) size items

abbrev shard_spec : ℕ → ℕ → List Json → ChildTaskSpec
shard_spec priority index shard = record {
  task_type = "batch.sleep.echo.shard";
  payload = Json.obj (Fields.field "items" (Json.arr (of_list shard)) Fields.end);
  shard_index = index;
  shard_key = append "shard-" (decimal index);
  priority = priority;
}

-- for index, shard in enumerate(shards)
unfoldable pub child_specs : ℕ → ℕ → List (List Json) → List ChildTaskSpec
child_specs priority index [] = []
child_specs priority index (shard ∷ rest) =
    shard_spec priority index shard ∷ child_specs priority (suc index) rest

abbrev pub parent_args : Env → TaskCreateRequest → Option String → NewTask
parent_args env r created_by = record (request_args env r created_by) {
  status = TaskStatus.dispatching;
  task_role = TaskRole.parent;
  child_summary = some ChildSummary.empty;
}

abbrev pub children_of : TaskCreateRequest → Option String → ℕ → ChildrenOf
children_of r created_by id = record {
  parent_task_id = id;
  queue_name = r.queue_name;
  max_attempts = r.max_attempts;
  timeout_seconds = r.timeout_seconds;
  created_by = created_by;
}

-- the part after the parent is there
unfoldable pub dispatch_children :
    Env
    → TaskCreateRequest
    → Option String
    → List ChildTaskSpec
    → Created
    → Session
    → Result (Accepted × Session)
dispatch_children env r created_by specs m s =
    if not m.created
    then ok (record { task_id = m.id; status = m.task.status; created = false }, s)
    else do
      s1 ← create_child_tasks env (children_of r created_by m.id) specs s
      (parent, s2) ← transition_parent_to_running env m.id (length specs) s1
      ok (record { task_id = m.id; status = parent.status; created = true }, s2)

abbrev is_empty {ℓ} : {A : Type ℓ} → List A → Bool
is_empty [] = true
is_empty (x ∷ xs) = false

-- A shard size of 0 makes range() raise.
unfoldable pub create_fanout_task :
    Env → TaskCreateRequest → Option String → Session → Result (Accepted × Session)
create_fanout_task env r created_by s =
    let size = env.settings.task_fanout_shard_size in
    let specs = child_specs r.priority 0 (shards size (payload_items r.payload)) in
    if is_empty (payload_items r.payload)
    then err (Error.invalid "batch.sleep.echo payload.items must be a non-empty list")
    else if size == 0
    then err (Error.invalid "range() arg 3 must not be zero")
    else if ltb env.settings.task_fanout_max_children (length specs)
    then err (Error.invalid "Task fan-out exceeds configured child task limit")
    else do
      (m, s') ← create_task env (parent_args env r created_by) s
      dispatch_children env r created_by specs m s'
