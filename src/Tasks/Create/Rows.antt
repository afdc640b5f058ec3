-- ===== src/Tasks/Create/Rows.antt =====
-- task_repository.py: create_task, by the rows of the table before and after it.
use amsz_web.Tasks.Create.Keys.{
  HasKey, Some, looked_for, looked_for-none, looked_for-some, free, taken, Some-map,
}
use amsz_web.Tasks.Create.Effects.{Creates, Adds, found_by, create_task-Creates}
use amsz_web.Tasks.Create.{NewTask, Created, create_task, new_row}
use amsz_web.Table.{Row, flush}
use amsz_web.Models.{Task}
use amsz_web.Session.{Env, Session, Result, ok, err, Error}
use amsz_web.Base.{
  suc, String, true, false, Option, none, some, List, [], ◌∷◌, ◌++◌, All, ◌≡◌, ◌≢◌, ◌⊎◌, inl, inr,
  refl, sym, ◌∙◌, ap, truthy, subst,
}

-- `t` is the row of a new task: what the caller gives, and nothing that has happened yet
pub record IsNew (env : Env) (a : NewTask) (t : Task) : Type 0 where
  pub task_type : t.task_type ≡ a.task_type
  pub queue_name : t.queue_name ≡ a.queue_name
  pub task_role : t.task_role ≡ a.task_role
  pub parent_task_id : t.parent_task_id ≡ a.parent_task_id
  pub idempotency_key : t.idempotency_key ≡ a.idempotency_key
  pub biz_key : t.biz_key ≡ a.biz_key
  pub shard : (t.shard_index ≡ a.shard_index) × (t.shard_key ≡ a.shard_key)
  pub status : t.status ≡ a.status
  pub priority : t.priority ≡ a.priority
  pub payload : t.payload_json ≡ a.payload
  pub limits : (t.max_attempts ≡ a.max_attempts) × (t.timeout_seconds ≡ a.timeout_seconds)
  pub scheduled_at : t.scheduled_at ≡ a.scheduled_at
  pub created_by : t.created_by ≡ a.created_by
  pub created_at : t.created_at ≡ env.now
  pub children : t.total_children ≡ a.total_children
  pub nothing_yet : (t.attempt_no ≡ 0) × (t.progress ≡ 0) × (t.cancel_requested ≡ false)
  pub no_owner : (t.lease_owner ≡ none) × (t.lease_until ≡ none)
  pub no_times : (t.started_at ≡ none) × (t.finished_at ≡ none)
  pub no_result : (t.result_json ≡ none) × (t.error_code ≡ none) × (t.error_message ≡ none)

-- why a task that is there is not looked for or not found: there is no key, the task is a child, or
-- no row that the database has is of the type and the key
abbrev pub NotFound : NewTask → List (Row Task) → Type 0
NotFound a rows =
    (truthy a.idempotency_key ≡ false)
    ⊎ (a.parent_task_id ≢ none)
    ⊎ ((key : String) × (a.idempotency_key ≡ some key)
        × All (λ r. (r.stored.task_type ≢ a.task_type) ⊎ (r.stored.idempotency_key ≢ some key))
            rows)

-- no object of the session is of the type and the key
abbrev pub IsFree : NewTask → List (Row Task) → Type 0
IsFree a rows =
    (a.idempotency_key ≡ none)
    ⊎ ((key : String) × (a.idempotency_key ≡ some key)
        × All (λ r. (r.live.task_type ≢ a.task_type) ⊎ (r.live.idempotency_key ≢ some key)) rows)

-- a task that is there
pub record Found (a : NewTask) (s : Session) (m : Created) (s' : Session) : Type 0 where
  pub key : String
  pub given : a.idempotency_key ≡ some key
  pub no_child : a.parent_task_id ≡ none
  pub row :
      Some
        (λ r.
          (m ≡ record { id = r.key; task = r.live; created = false })
          × HasKey a.task_type key r.stored)
        s.tasks
  pub same : s' ≡ s

-- a task that is new
pub record Added (env : Env) (a : NewTask) (s : Session) (m : Created) (s' : Session) : Type 0 where
  pub looked : NotFound a s.tasks
  pub free : IsFree a s.tasks
  pub created : m.created ≡ true
  pub id : m.id ≡ s.next_task_id
  pub task : IsNew env a m.task
  pub rows : s'.tasks ≡ flush s.tasks ++ record { key = m.id; stored = m.task; live = m.task } ∷ []
  pub next : s'.next_task_id ≡ suc m.id

-- the unique constraint on the type and the key
pub record Refused (a : NewTask) (s : Session) (e : Error) : Type 0 where
  pub looked : NotFound a s.tasks
  pub error : e ≡ Error.integrity a.task_type
  pub key : String
  pub given : a.idempotency_key ≡ some key
  pub row : Some (λ r. HasKey a.task_type key r.live) s.tasks

abbrev pub Submitted : Env → NewTask → Session → Result (Created × Session) → Type 0
Submitted env a s (ok (m, s')) = Found a s m s' ⊎ Added env a s m s'
Submitted env a s (err e) = Refused a s e

new_row-IsNew : (env : Env) (a : NewTask) → IsNew env a (new_row env a)
new_row-IsNew env a = record {
  task_type = refl;
  queue_name = refl;
  task_role = refl;
  parent_task_id = refl;
  idempotency_key = refl;
  biz_key = refl;
  shard = (refl, refl);
  status = refl;
  priority = refl;
  payload = refl;
  limits = (refl, refl);
  scheduled_at = refl;
  created_by = refl;
  created_at = refl;
  children = refl;
  nothing_yet = (refl, refl, refl);
  no_owner = (refl, refl);
  no_times = (refl, refl);
  no_result = (refl, refl, refl);
}

Adds-Submitted :
    (env : Env) (a : NewTask) (s : Session) (r : Result (Created × Session))
    → NotFound a s.tasks
    → Adds env a s r
    → Submitted env a s r
Adds-Submitted env a s (ok (m, s')) looked (f, e, rows, next) = inr (record {
  looked = looked;
  free = free a.task_type a.idempotency_key s.tasks f;
  created = ap (λ x. x.created) e;
  id = ap (λ x. x.id) e;
  task = subst (λ x. IsNew env a x.task) (sym e) (new_row-IsNew env a);
  rows =
      rows
      ∙ ap (λ x. flush s.tasks ++ record { key = x.id; stored = x.task; live = x.task } ∷ [])
          (sym e);
  next = next ∙ ap (λ x. suc x.id) (sym e);
})
Adds-Submitted env a s (err x) looked (f, e) =
    let (key, given, row) = taken a.task_type a.idempotency_key s.tasks f in
    record { looked = looked; error = e; key = key; given = given; row = row }

Creates-Submitted :
    (env : Env) (a : NewTask) (s : Session) (o : Option (Row Task)) (r : Result (Created × Session))
    → looked_for a.task_type a.idempotency_key a.parent_task_id s.tasks ≡ o
    → Creates env a s o r
    → Submitted env a s r
Creates-Submitted env a s none r e c =
    Adds-Submitted env a s r
      (looked_for-none a.task_type a.idempotency_key a.parent_task_id s.tasks e) c
Creates-Submitted env a s (some q) r e c =
    let (key, given, no_child, row) =
      looked_for-some a.task_type a.idempotency_key a.parent_task_id s.tasks q e in
    subst (Submitted env a s) (sym c) (
      inl (record {
        key = key;
        given = given;
        no_child = no_child;
        row =
            Some-map _ _ s.tasks
              (λ p h.
                (ap (λ x. record { id = x.key; task = x.live; created = false }) (sym h.0), h.1))
              row;
        same = refl;
      }))

-- create_task gives one of three results. It returns a task that is there, with the type and the key of
-- the caller, and changes nothing; the caller then gives that key, and no parent. Or it adds one row
-- under the next id, with the columns that the caller gives, in which nothing has happened yet. Or it
-- raises, and an object of the session has the type and the key. In the last two there is no key, or
-- a parent, or no row with the type and the key in the database; and a row is added only if no
-- object of the session has the type and the key.
pub create_task-Submitted :
    (env : Env) (a : NewTask) (s : Session) → Submitted env a s (create_task env a s)
create_task-Submitted env a s =
    Creates-Submitted env a s (found_by a s) (create_task env a s) refl
      (create_task-Creates env a s)
