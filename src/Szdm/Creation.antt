-- ===== src/Szdm/Creation.antt =====
-- szdm_orchestration_service.py and the methods of szdm_repository.py that make jobs and items and list
-- them. The storage client is an interface: what put_json returns or raises, and to_uri.
use mathlib.Core.Option
use amsz_web.Base.{
  ℕ, suc, String, Bool, Option, none, some, List, [], ◌∷◌, length, ltb, ◌==◌, ◌&&◌, ◌||◌, append,
  decimal, str_eq, take, drop, if◌then◌else◌, true, or_else, false,
}
use amsz_web.Domain.{Json, Fields, Items, TaskStatus, TaskRole}
use amsz_web.Models.{ChildSummary, Task}
use amsz_web.Table.{Row, flush, add, query, scalar}
use amsz_web.Table.Order.{order_by}
use amsz_web.Session.{◌>>=◌, Env, Result, ok, err, Error, set_task, commit}
use amsz_web.Tasks.Create.{NewTask, create_task}
use amsz_web.Szdm.{SzdmJob, SzdmItem, Board}

pub record SzdmItemInput : Type 0 where
  pub item_key : String
  pub condition_key : String
  pub priority : Option ℕ
  pub payload : Json
  pub display_summary : Option Json

pub record SzdmJobCreateRequest : Type 0 where
  pub items : List SzdmItemInput
  pub priority : ℕ
  pub max_parallel_children : ℕ
  pub dispatch_batch_size : ℕ
  pub reuse_window_seconds : ℕ
  pub report_options : Json

-- the settings, strftime, and the client of the bucket
pub record SzdmEnv : Type 0 where
  pub env : Env
  pub szdm_queue_name : String
  pub szdm_subtask_timeout_seconds : ℕ
  pub format_timestamp : ℕ → String
  pub put_json : String → Json → Result String
  pub to_uri : String → String

-- the tables of jobs and items with the next values of their keys
pub record Ids : Type 0 where
  pub next_job_id : ℕ
  pub next_item_id : ℕ

-- session.flush()
abbrev pub flush_board : Board → Board
flush_board p = record { session = commit p.session; jobs = flush p.jobs; items = flush p.items }

-- the keyword arguments of SzdmRepository.create_job, with the defaults of the columns
abbrev pub new_job : ℕ → String → String → ℕ → SzdmJobCreateRequest → SzdmJob
new_job parent_task_id job_s3_prefix input_s3_key item_count r = record {
  parent_task_id = parent_task_id;
  status = "PARTIALLY_RUNNING";
  priority = r.priority;
  job_s3_prefix = job_s3_prefix;
  input_s3_key = input_s3_key;
  item_count = item_count;
  dispatched_count = 0;
  running_count = 0;
  succeeded_count = 0;
  failed_count = 0;
  reused_count = 0;
  generated_count = 0;
  max_parallel_children = r.max_parallel_children;
  dispatch_batch_size = r.dispatch_batch_size;
  reuse_window_seconds = r.reuse_window_seconds;
  report_status = "PENDING";
  report_s3_key = none;
  report_hash = none;
  report_summary_json = none;
  report_metric_summary_json = none;
  finished_at = none;
}

abbrev pub insert_job : ℕ → SzdmJob → Board → Board
insert_job id j p = flush_board (record p { jobs = add id j p.jobs })

-- str(item.get("condition_key") or "default")
abbrev condition_or_default : String → String
condition_or_default String.[] = "default"
condition_or_default (String.◌∷◌ c s) = String.◌∷◌ c s

abbrev pub new_item : ℕ → ℕ → ℕ → SzdmItemInput → SzdmItem
new_item job_id index priority i = record {
  job_id = job_id;
  item_index = index;
  item_key = i.item_key;
  condition_key = condition_or_default i.condition_key;
  status = "PENDING";
  reuse_status = "NOT_CHECKED";
  child_task_id = none;
  priority = or_else i.priority priority;
  attempt_no = 0;
  result_s3_key = none;
  result_timestamp = none;
  metrics_json = none;
  display_summary_json = i.display_summary;
  error_code = none;
  error_message = none;
  started_at = none;
  finished_at = none;
}

-- for index, item in enumerate(items): session.add(row)
unfoldable pub add_items :
    ℕ → ℕ → ℕ → ℕ → List SzdmItemInput → List (Row SzdmItem) → List (Row SzdmItem)
add_items job_id id index priority [] rows = rows
add_items job_id id index priority (i ∷ is) rows =
    add_items job_id (suc id) (suc index) priority is
      (add id (new_item job_id index priority i) rows)

-- uk_szdm_item_key_condition
abbrev same_item : SzdmItem → SzdmItem → Bool
same_item i j =
    (i.job_id == j.job_id) && str_eq i.item_key j.item_key && str_eq i.condition_key j.condition_key

abbrev is_repeated : SzdmItem → List (Row SzdmItem) → Bool
is_repeated i [] = false
is_repeated i (r ∷ rs) = same_item i r.live || is_repeated i rs

unfoldable pub has_repeated : List (Row SzdmItem) → Bool
has_repeated [] = false
has_repeated (r ∷ rs) = is_repeated r.live rs || has_repeated rs

-- a flush that breaks the constraint raises
unfoldable pub create_items : ℕ → ℕ → ℕ → List SzdmItemInput → Board → Result Board
unfolding add_items has_repeated
create_items job_id next_item_id priority is p =
    let rows = add_items job_id next_item_id 0 priority is p.items in
    if has_repeated rows
    then err (Error.integrity "szdm_item")
    else ok (flush_board (record p { items = rows }))

abbrev szdm_args : SzdmEnv → SzdmJobCreateRequest → Option String → NewTask
szdm_args z r created_by = record {
  task_type = "szdm";
  queue_name = z.szdm_queue_name;
  biz_key = none;
  idempotency_key = none;
  priority = r.priority;
  max_attempts = 1;
  timeout_seconds = z.szdm_subtask_timeout_seconds;
  scheduled_at = z.env.now;
  payload = Json.obj (Fields.field "status" (Json.str "managed_by_szdm_job") Fields.end);
  created_by = created_by;
  status = TaskStatus.partially_running;
  task_role = TaskRole.parent;
  parent_task_id = none;
  shard_index = none;
  shard_key = none;
  total_children = length r.items;
  child_summary = some ChildSummary.empty;
}

abbrev or_null : Option Json → Json
or_null none = Json.null
or_null (some v) = v

-- item.model_dump()
abbrev dumped : SzdmItemInput → Json
dumped i = Json.obj (
    Fields.field "item_key" (Json.str i.item_key) (
      Fields.field "condition_key" (Json.str i.condition_key) (
        Fields.field "priority" (or_null (Option.map Json.num i.priority)) (
          Fields.field "payload" i.payload
            (Fields.field "display_summary" (or_null i.display_summary) Fields.end)))))

abbrev dumped_all : List SzdmItemInput → Items
dumped_all [] = Items.nil
dumped_all (i ∷ is) = Items.cons (dumped i) (dumped_all is)

abbrev input_json : SzdmEnv → SzdmJobCreateRequest → Json
input_json z r = Json.obj (
    Fields.field "items" (Json.arr (dumped_all r.items)) (
      Fields.field "report_options" r.report_options
        (Fields.field "created_at" (Json.str (z.env.isoformat z.env.now)) Fields.end)))

abbrev pub job_prefix : SzdmEnv → ℕ → String
job_prefix z task_id =
    append "szdm/jobs/" (append (decimal task_id) (append "/" (z.format_timestamp z.env.now)))

abbrev job_payload : ℕ → Task → Task
job_payload job_id t = record t {
  payload_json = Json.obj (Fields.field "job_id" (Json.num job_id) Fields.end);
}

-- the reply: the ids of the job and of its parent task, and the job's status
pub record JobCreated : Type 0 where
  pub job_id : ℕ
  pub task_id : ℕ
  pub status : String

-- the part after the parent task and the input file are there
unfoldable pub job_with_items :
    SzdmEnv → Ids → SzdmJobCreateRequest → ℕ → String → Board → Result (JobCreated × Board)
unfolding create_items
job_with_items z ids r task_id input p = do
  let job = new_job task_id (z.to_uri (job_prefix z task_id)) input (length r.items) r
  let p1 = insert_job ids.next_job_id job p
  let p2 = record p1 { session = set_task task_id (job_payload ids.next_job_id) p1.session }
  p3 ← create_items ids.next_job_id ids.next_item_id r.priority r.items p2
  ok (record { job_id = ids.next_job_id; task_id = task_id; status = job.status }, p3)

unfoldable pub create_job :
    SzdmEnv → Ids → SzdmJobCreateRequest → Option String → Board → Result (JobCreated × Board)
unfolding job_with_items
create_job z ids r created_by p =
    if ltb r.max_parallel_children r.dispatch_batch_size
    then err (Error.invalid "dispatch_batch_size cannot exceed max_parallel_children")
    else do
      (m, s) ← create_task z.env (szdm_args z r created_by) p.session
      input ← z.put_json (append (job_prefix z m.id) "/input.json") (input_json z r)
      job_with_items z ids r m.id input (record p { session = s })

unfoldable pub get_job_by_parent_task_id : ℕ → Board → Option (Row SzdmJob)
get_job_by_parent_task_id task_id p = scalar (λ j. j.parent_task_id == task_id) p.jobs

pub record ItemFilters : Type 0 where
  pub status : Option String
  pub reuse_status : Option String
  pub item_key : Option String
  pub condition_key : Option String

-- `if value: stmt = stmt.where(column == value)`
abbrev wanted : Option String → String → Bool
wanted none v = true
wanted (some String.[]) v = true
wanted (some w) v = str_eq v w

abbrev pub is_wanted : ℕ → ItemFilters → SzdmItem → Bool
is_wanted job_id f i =
    (i.job_id == job_id)
    && wanted f.status i.status
    && wanted f.reuse_status i.reuse_status
    && wanted f.item_key i.item_key
    && wanted f.condition_key i.condition_key

unfoldable pub list_items : ℕ → ItemFilters → ℕ → ℕ → Board → List (Row SzdmItem)
list_items job_id f limit offset p = take limit (
    drop offset (
      order_by
        (λ r q.
          ltb q.stored.priority r.stored.priority
          || ((q.stored.priority == r.stored.priority)
              && ltb r.stored.item_index q.stored.item_index))
        (query (is_wanted job_id f) p.items)))
