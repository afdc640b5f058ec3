-- ===== src/Tasks/Create/Effects.antt =====
-- What create_task does to the table, and the idempotency that it gives.
use amsz_web.Tasks.Create.{
  add_task, create_task, add_event, NewTask, Created, Row, Task, has_key, find_key, new_row, insert,
}
use amsz_web.Base.{
  true, false, refl, Bool, truthy, Option, Bool-cases, ◌&&◌, inr, inl, not, some, Option-cases, ◌≡◌,
  is_some, suc, none, if◌then◌else◌, arith,
}
use amsz_web.Tasks.Events.{add_event}
use amsz_web.Session.{ok, err, Env, Session, Result, Error}

-- A new row under the next id, or the unique constraint is broken.
abbrev pub Adds : Env → NewTask → Session → Result (Created × Session) → Type 0
Adds env a s (ok (m, s')) =
    (has_key a.task_type a.idempotency_key s.tasks ≡ false)
    × (m ≡ record { id = s.next_task_id; task = new_row env a; created = true })
    × (s'.tasks ≡ insert s.next_task_id (new_row env a) s.tasks)
    × (s'.next_task_id ≡ suc s.next_task_id)
Adds env a s (err e) =
    (has_key a.task_type a.idempotency_key s.tasks ≡ true) × (e ≡ Error.integrity a.task_type)

pub add_task-Adds : (env : Env) (a : NewTask) (s : Session) → Adds env a s (add_task env a s)
unfolding add_task add_event
add_task-Adds env a s = elim (Bool-cases (has_key a.task_type a.idempotency_key s.tasks)) [
  | inl h ↦ rw (h, add_task) (h, refl)
  | inr h ↦ rw (h, add_task) (h, refl, ground arith, ground arith)
]

-- the test `if idempotency_key and parent_task_id is None`
abbrev pub looks_up : NewTask → Bool
looks_up a = truthy a.idempotency_key && not (is_some a.parent_task_id)

-- The task that is there already, or a new one.
abbrev pub Creates :
    Env → NewTask → Session → Option (Row Task) → Result (Created × Session) → Type 0
Creates env a s (some r) res = res ≡ ok (record { id = r.key; task = r.live; created = false }, s)
Creates env a s none res = Adds env a s res

abbrev pub found_by : NewTask → Session → Option (Row Task)
found_by a s = if looks_up a then find_key a.task_type a.idempotency_key s.tasks else none

-- create_task returns the task with the same type and key, if the caller gives a key and no parent
-- and there is one, and changes nothing; otherwise it adds one row under the next id, or raises
-- where the unique constraint forbids the row.
pub create_task-Creates :
    (env : Env) (a : NewTask) (s : Session) → Creates env a s (found_by a s) (create_task env a s)
unfolding create_task
create_task-Creates env a s = elim (Bool-cases (looks_up a)) [
  | inr n ↦ rw (n, create_task) (add_task-Adds env a s)
  | inl y ↦ elim (Option-cases (find_key a.task_type a.idempotency_key s.tasks)) [
    | inl e ↦ rw (y, e, create_task) (add_task-Adds env a s)
    | inr (r, e) ↦ rw (y, e, create_task) refl
  ]
]
