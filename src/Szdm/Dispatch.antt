-- ===== src/Szdm/Dispatch.antt =====
-- szdm_repository.py: dispatch_items_for_job.
use amsz_web.Base.{
  append, min, ◌-◌, max, ◌&&◌, ◌||◌, select, ◌∷◌, decimal, ◌+◌, not, none, str_eq, [],
}
use amsz_web.Szdm.{
  SzdmJob, SzdmItem, Board, refresh_job_counts, ℕ, Bool, if◌then◌else◌, String, count, ltb, take,
  List, Option, ◌==◌, some,
}
use amsz_web.Tasks.Create.{NewTask, Created, create_task}
use amsz_web.Domain.{TaskStatus, TaskRole, Json, Fields}
use amsz_web.Table.{Row, modify, flush, query}
use amsz_web.Table.Order.{order_by}
use amsz_web.Session.{Env, Session, Result, ok, ◌>>=◌}

-- the keyword arguments of dispatch_items_for_job, less the repositories
pub record DispatchArgs : Type 0 where
  pub queue_name : String
  pub max_attempts : ℕ
  pub timeout_seconds : ℕ
  pub created_by : Option String
  pub per_job_limit : ℕ

-- item.status in (DISPATCHED, RUNNING)
abbrev pub is_active_item : ℕ → SzdmItem → Bool
is_active_item id i =
    (i.job_id == id) && (str_eq i.status "DISPATCHED" || str_eq i.status "RUNNING")

-- _active_child_count
abbrev pub active_child_count : ℕ → Board → ℕ
active_child_count id p = count (λ r. is_active_item id r.stored) p.items

-- min(per_job_limit, job.dispatch_batch_size, available_slots); `-` stops at 0
abbrev pub dispatch_limit : DispatchArgs → SzdmJob → ℕ → ℕ
dispatch_limit a j active_count =
    min (min a.per_job_limit j.dispatch_batch_size) (j.max_parallel_children - active_count)

abbrev item_before : Row SzdmItem → Row SzdmItem → Bool
item_before r q =
    ltb q.stored.priority r.stored.priority
    || ((q.stored.priority == r.stored.priority) && ltb r.stored.item_index q.stored.item_index)

abbrev pub pending_items : ℕ → (ℕ → Bool) → Board → List (Row SzdmItem)
pending_items id locked p = order_by item_before (
    select (λ r. not (locked r.key))
      (query (λ i. (i.job_id == id) && str_eq i.status "PENDING") p.items))

abbrev key_text : String → ℕ → ℕ → String
key_text prefix job_id item_id =
    append prefix (append (decimal job_id) (append ":" (decimal item_id)))

-- the call of create_task in the loop
abbrev pub item_args : Env → DispatchArgs → ℕ → SzdmJob → ℕ → SzdmItem → NewTask
item_args env a job_id j item_id i = record {
  task_type = "szdm.sub";
  queue_name = a.queue_name;
  biz_key = some (key_text "szdm:" job_id item_id);
  idempotency_key = some (key_text "szdm-sub:" job_id item_id);
  priority = max j.priority i.priority;
  max_attempts = a.max_attempts;
  timeout_seconds = a.timeout_seconds;
  scheduled_at = env.now;
  payload = Json.obj (
      Fields.field "job_id" (Json.num job_id)
        (Fields.field "item_id" (Json.num item_id) Fields.end));
  created_by = a.created_by;
  status = TaskStatus.pending;
  task_role = TaskRole.child;
  parent_task_id = some j.parent_task_id;
  shard_index = some i.item_index;
  shard_key = some i.item_key;
  total_children = 0;
  child_summary = none;
}

abbrev pub dispatched_item : ℕ → SzdmItem → SzdmItem
dispatched_item task_id i = record i { child_task_id = some task_id; status = "DISPATCHED" }

-- the flush of create_task writes the jobs and the items too
abbrev pub with_session : Created → Session → Board → Board
with_session m s p =
    if m.created
    then record { session = s; jobs = flush p.jobs; items = flush p.items }
    else record p { session = s }

unfoldable pub dispatch_item :
    Env → DispatchArgs → ℕ → SzdmJob → Row SzdmItem → Board → Result (ℕ × Board)
dispatch_item env a job_id j r p = do
  (m, s) ← create_task env (item_args env a job_id j r.key r.live) p.session
  let q = with_session m s p
  ok (if m.created then 1 else 0, record q { items = modify r.key (dispatched_item m.id) q.items })

unfoldable pub dispatch_items :
    Env → DispatchArgs → ℕ → SzdmJob → List (Row SzdmItem) → Board → Result (ℕ × Board)
dispatch_items env a job_id j [] p = ok (0, p)
dispatch_items env a job_id j (r ∷ rs) p = do
  (n, p1) ← dispatch_item env a job_id j r p
  (k, p2) ← dispatch_items env a job_id j rs p1
  ok (n + k, p2)

-- the part after the limit is known to be positive
unfoldable pub dispatch_some :
    Env → DispatchArgs → (ℕ → Bool) → ℕ → SzdmJob → ℕ → Board → Result (ℕ × Board)
dispatch_some env a locked job_id j limit p = do
  (n, p1) ← dispatch_items env a job_id j (take limit (pending_items job_id locked p)) p
  p2 ← refresh_job_counts env job_id p1
  ok (n, p2)

-- the part after the first refresh
abbrev pub dispatched_from :
    Env → DispatchArgs → (ℕ → Bool) → ℕ → SzdmJob → Board → Result (ℕ × Board)
dispatched_from env a locked job_id j p =
    let limit = dispatch_limit a j (active_child_count job_id p) in
    if limit == 0 then ok (0, p) else dispatch_some env a locked job_id j limit p

-- `j` has the columns of the job, of which the loop reads none that it writes.
unfoldable pub dispatch_items_for_job :
    Env → DispatchArgs → (ℕ → Bool) → ℕ → SzdmJob → Board → Result (ℕ × Board)
dispatch_items_for_job env a locked job_id j p =
    refresh_job_counts env job_id p >>= λ p1. dispatched_from env a locked job_id j p1
