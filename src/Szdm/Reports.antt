-- ===== src/Szdm/Reports.antt =====
-- szdm_repository.py: jobs and items as they are created and read, the aggregate task, the report and
-- the priorities.
use amsz_web.Base.{
  append, true, ◌==◌, ltb, if◌then◌else◌, decimal, ◌&&◌, str_eq, false, ◌∷◌, max, keep_if, ◌||◌, [],
}
use amsz_web.Szdm.{
  SzdmJob, SzdmItem, Board, refresh_job_counts, require_job, String, some, Bool, ℕ, none, List,
  Option, not, require_item,
}
use amsz_web.Szdm.Dispatch.{DispatchArgs, with_session}
use amsz_web.Domain.{TaskStatus, TaskRole, Json, Fields, status_eq}
use amsz_web.Models.{Task}
use amsz_web.Tasks.Create.{NewTask, Created, create_task}
use amsz_web.Table.{Row, get, modify, query}
use amsz_web.Table.Order.{order_by}
use amsz_web.Session.{Env, Result, ok, ◌>>=◌, set_task, Session}

abbrev pub get_job : ℕ → Board → Option SzdmJob
get_job id p = get id p.jobs

abbrev pub get_item : ℕ → Board → Option SzdmItem
get_item id p = get id p.items

abbrev pub list_all_items : ℕ → Board → List (Row SzdmItem)
list_all_items id p =
    order_by (λ r q. ltb r.stored.item_index q.stored.item_index)
      (query (λ i. i.job_id == id) p.items)

abbrev id_text : String → ℕ → String
id_text prefix id = append prefix (decimal id)

abbrev pub report_args : Env → DispatchArgs → ℕ → SzdmJob → NewTask
report_args env a id j = record {
  task_type = "szdm.aggregate";
  queue_name = a.queue_name;
  biz_key = some (id_text "szdm-aggregate:" id);
  idempotency_key = some (id_text "szdm-aggregate:" id);
  priority = j.priority;
  max_attempts = a.max_attempts;
  timeout_seconds = a.timeout_seconds;
  scheduled_at = env.now;
  payload = Json.obj (Fields.field "job_id" (Json.num id) Fields.end);
  created_by = a.created_by;
  status = TaskStatus.pending;
  task_role = TaskRole.aggregate;
  parent_task_id = some j.parent_task_id;
  shard_index = none;
  shard_key = none;
  total_children = 0;
  child_summary = none;
}

-- not (item_count == 0 or succeeded_count != item_count or report_status != "PENDING")
abbrev pub is_complete : SzdmJob → Bool
is_complete j =
    not (j.item_count == 0)
    && (j.succeeded_count == j.item_count)
    && str_eq j.report_status "PENDING"

abbrev pub reporting_job : SzdmJob → SzdmJob
reporting_job j = record j { report_status = "RUNNING"; status = "AGGREGATING" }

abbrev pub reporting_parent : Task → Task
reporting_parent t = record t {
  status = TaskStatus.aggregating;
  current_stage = some "szdm_aggregating";
  aggregation_dispatched = true;
}

abbrev pub reporting_board : ℕ → SzdmJob → Board → Board
reporting_board id j q = record q {
  jobs = modify id reporting_job q.jobs;
  session = set_task j.parent_task_id reporting_parent q.session;
}

-- what follows the call of create_task
abbrev pub report_started :
    ℕ → SzdmJob → Board → Created → Session → Result (Option Created × Board)
report_started id j p m s =
    ok (if m.created then some m else none, reporting_board id j (with_session m s p))

-- the part after the test
unfoldable pub start_report :
    Env → DispatchArgs → ℕ → SzdmJob → Board → Result (Option Created × Board)
start_report env a id j p =
    create_task env (report_args env a id j) p.session >>= λ (m, s). report_started id j p m s

-- the part after the refresh
abbrev pub report_if_complete :
    Env → DispatchArgs → ℕ → Board → SzdmJob → Result (Option Created × Board)
report_if_complete env a id p j = if is_complete j then start_report env a id j p else ok (none, p)

unfoldable pub schedule_aggregate_if_ready :
    Env → DispatchArgs → ℕ → Board → Result (Option Created × Board)
schedule_aggregate_if_ready env a id p = refresh_job_counts env id p >>= λ p1.
    require_job id p1 >>= λ j. report_if_complete env a id p1 j

-- the keyword arguments of finish_report
pub record Report : Type 0 where
  pub report_s3_key : String
  pub report_hash : String
  pub summary : Json
  pub metric_summary : Json

abbrev pub finished_job : Env → Report → SzdmJob → SzdmJob
finished_job env r j = record j {
  report_status = "SUCCEEDED";
  report_s3_key = some r.report_s3_key;
  report_hash = some r.report_hash;
  report_summary_json = some r.summary;
  report_metric_summary_json = some r.metric_summary;
  status = "SUCCEEDED";
  finished_at = some env.now;
}

abbrev pub finished_parent : Env → ℕ → Report → Task → Task
finished_parent env id r t = record t {
  status = TaskStatus.succeeded;
  progress = 100;
  current_stage = some "completed";
  result_json = some (
      Json.obj (
        Fields.field "job_id" (Json.num id) (
          Fields.field "report_s3_key" (Json.str r.report_s3_key)
            (Fields.field "summary" r.summary Fields.end))));
  finished_at = some env.now;
}

unfoldable pub finish_report : Env → ℕ → Report → Board → Result (SzdmJob × Board)
finish_report env id r p = require_job id p >>= λ j. ok (
  finished_job env r j,
  record p {
    jobs = modify id (finished_job env r) p.jobs;
    session = set_task j.parent_task_id (finished_parent env id r) p.session;
  },
)

-- priorities: a waiting task is raised, never lowered
abbrev pub is_waiting_task : Task → Bool
is_waiting_task t =
    status_eq t.status TaskStatus.pending || status_eq t.status TaskStatus.retry_wait

abbrev pub raised : ℕ → Task → Task
raised priority t = record t { priority = max t.priority priority }

-- the tasks of _pending_child_tasks: those with the id of a child of the job, that wait
abbrev has_child : ℕ → ℕ → List (Row SzdmItem) → Bool
has_child job_id task_id [] = false
has_child job_id task_id (r ∷ rs) =
    ((r.stored.job_id == job_id) && keep_if (λ c. c == task_id) r.stored.child_task_id)
    || has_child job_id task_id rs

unfoldable pub raise_children : ℕ → ℕ → List (Row SzdmItem) → List (Row Task) → List (Row Task)
raise_children job_id priority items [] = []
raise_children job_id priority items (r ∷ rs) =
    (if has_child job_id r.key items && is_waiting_task r.stored
      then record r { live = raised priority r.live }
      else r)
    ∷ raise_children job_id priority items rs

unfoldable pub update_job_priority : ℕ → ℕ → Board → Result (SzdmJob × Board)
update_job_priority id priority p = require_job id p >>= λ j. ok (
  record j { priority = priority },
  record p {
    jobs = modify id (λ q. record q { priority = priority }) p.jobs;
    session = record p.session { tasks = raise_children id priority p.items p.session.tasks };
  },
)

abbrev pub raise_if_waiting : ℕ → Task → Task
raise_if_waiting priority t = if is_waiting_task t then raised priority t else t

abbrev raise_child : ℕ → Option ℕ → Session → Session
raise_child priority none s = s
raise_child priority (some id) s = set_task id (raise_if_waiting priority) s

unfoldable pub update_item_priority : ℕ → ℕ → Board → Result (SzdmItem × Board)
update_item_priority id priority p = require_item id p >>= λ i. ok (
  record i { priority = priority },
  record p {
    items = modify id (λ q. record q { priority = priority }) p.items;
    session = raise_child priority i.child_task_id p.session;
  },
)
