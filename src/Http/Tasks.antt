-- ===== src/Http/Tasks.antt =====
-- app/interfaces/http/routes/tasks.py, with task_query_service.py and the responses of
-- contracts/http/task.py. The path and the query are parsed: pydantic has checked their ranges.
pub mod Twice
pub mod Effects
use amsz_web.Http.{Answer, HttpEnv, status_text, with_api_key, Headers, refused_with}
use amsz_web.Base.{[], ◌∷◌, if◌then◌else◌, str_eq}
use amsz_web.Base.{ℕ, String, Bool, Option, none, some, List, map, ◌*◌, ◌-◌}
use amsz_web.Domain.{TaskStatus, Json, role_text}
use amsz_web.Models.{Task, TaskEvent, ChildSummary}
use amsz_web.Table.{Row}
use amsz_web.Session.{Session, Result, ok, err, Error, commit, Env}
use amsz_web.Services.Commands.{TaskCreateRequest, Accepted, is_internal, external_fanout_task_type}
use amsz_web.Services.Commands
use amsz_web.Services.Fanout.{create_fanout_task}
use amsz_web.Tasks.Control.{request_cancel, retry_task}
use amsz_web.Tasks.Queries.{get_task, list_tasks, list_events, list_children, Filters}

pub record TaskCreateResponse : Type 0 where
  pub task_id : ℕ
  pub status : String
  pub message : String

pub record TaskDetailResponse : Type 0 where
  pub task_id : ℕ
  pub task_type : String
  pub queue_name : String
  pub task_role : String
  pub parent_task_id : Option ℕ
  pub status : String
  pub progress : ℕ
  pub current_stage : Option String
  pub attempt_no : ℕ
  pub max_attempts : ℕ
  pub error_code : Option String
  pub error_message : Option String
  pub result : Option Json
  pub total_children : ℕ
  pub succeeded_children : ℕ
  pub failed_children : ℕ
  pub running_children : ℕ
  pub child_summary : Option ChildSummary
  pub created_at : ℕ
  pub started_at : Option ℕ
  pub finished_at : Option ℕ

pub record TaskListItemResponse : Type 0 where
  pub task_id : ℕ
  pub task_type : String
  pub queue_name : String
  pub task_role : String
  pub status : String
  pub progress : ℕ
  pub created_at : ℕ
  pub finished_at : Option ℕ

pub record TaskCancelResponse : Type 0 where
  pub task_id : ℕ
  pub cancel_requested : Bool
  pub status : String

pub record TaskEventResponse : Type 0 where
  pub event_type : String
  pub from_status : Option TaskStatus
  pub to_status : Option TaskStatus
  pub message : Option String
  pub event_payload : Option Json
  pub created_at : ℕ

pub record TaskChildResponse : Type 0 where
  pub task_id : ℕ
  pub task_type : String
  pub task_role : String
  pub parent_task_id : Option ℕ
  pub status : String
  pub shard_index : Option ℕ
  pub shard_key : Option String
  pub progress : ℕ
  pub error_code : Option String
  pub error_message : Option String
  pub created_at : ℕ
  pub finished_at : Option ℕ

pub record TaskRetryResponse : Type 0 where
  pub task_id : ℕ
  pub status : String
  pub message : String

-- the bodies of the responses
pub data Body : Type 0 where
  created : TaskCreateResponse → Body
  retried : TaskRetryResponse → Body
  detail : TaskDetailResponse → Body
  listed : List TaskListItemResponse → Body
  canceled : TaskCancelResponse → Body
  events : List TaskEventResponse → Body
  children : List TaskChildResponse → Body

abbrev pub no_task {ℓ} : {A : Type ℓ} → Answer A
no_task = Answer.refuses 404 "Task not found"

-- the command of create_task
unfoldable pub submit :
    Env → TaskCreateRequest → Option String → Session → Result (Accepted × Session)
submit env r created_by s =
    if is_internal r.task_type
    then err (Error.invalid "Internal task types cannot be submitted directly")
    else if str_eq r.task_type external_fanout_task_type
    then create_fanout_task env r created_by s
    else Commands.create_task env r created_by s

abbrev pub created_response : Accepted → TaskCreateResponse
created_response a = record {
  task_id = a.task_id;
  status = status_text a.status;
  message = if a.created then "task accepted" else "existing task returned";
}

abbrev pub created_answer : HttpEnv → Result (Accepted × Session) → Answer (Body × Session)
created_answer h (err e) = refused_with 400 h e
created_answer h (ok (a, s)) =
    Answer.answers (if a.created then 202 else 200) (Body.created (created_response a), s)

unfoldable pub create_task_route :
    HttpEnv → Headers → TaskCreateRequest → Session → Answer (Body × Session)
unfolding submit
create_task_route h headers r s = created_answer h (submit h.env r headers.x_client_id s)

abbrev pub detail_response : ℕ → Task → TaskDetailResponse
detail_response id t = record {
  task_id = id;
  task_type = t.task_type;
  queue_name = t.queue_name;
  task_role = role_text t.task_role;
  parent_task_id = t.parent_task_id;
  status = status_text t.status;
  progress = t.progress;
  current_stage = t.current_stage;
  attempt_no = t.attempt_no;
  max_attempts = t.max_attempts;
  error_code = t.error_code;
  error_message = t.error_message;
  result = t.result_json;
  total_children = t.total_children;
  succeeded_children = t.succeeded_children;
  failed_children = t.failed_children;
  running_children = t.running_children;
  child_summary = t.child_summary;
  created_at = t.created_at;
  started_at = t.started_at;
  finished_at = t.finished_at;
}

unfoldable pub get_task_route : ℕ → Session → Answer (Body × Session)
get_task_route id s = elim (get_task id s) [
  | none ↦ no_task
  | some t ↦ Answer.answers 200 (Body.detail (detail_response id t), s)
]

-- the query of list_tasks
pub record Listing : Type 0 where
  pub status : Option String
  pub task_type : Option String
  pub queue_name : Option String
  pub biz_key : Option String
  pub page : ℕ
  pub page_size : ℕ

abbrev pub all_statuses : List TaskStatus
all_statuses =
    TaskStatus.pending ∷ TaskStatus.running ∷ TaskStatus.dispatching ∷ TaskStatus.partially_running
    ∷ TaskStatus.aggregating ∷ TaskStatus.retry_wait ∷ TaskStatus.succeeded ∷ TaskStatus.failed
    ∷ TaskStatus.canceled ∷ TaskStatus.dead ∷ []

abbrev status_named : String → List TaskStatus → Option TaskStatus
status_named v [] = none
status_named v (x ∷ xs) = if str_eq (status_text x) v then some x else status_named v xs

-- the column's type takes the names of the enum, and raises on another text
abbrev pub bind_status : Option TaskStatus → Result (Option TaskStatus)
bind_status none = err (Error.raised "StatementError" "not among the defined enum values")
bind_status (some x) = ok (some x)

abbrev pub status_filter : Option String → Result (Option TaskStatus)
status_filter none = ok none
status_filter (some String.[]) = ok none
status_filter (some v) = bind_status (status_named v all_statuses)

abbrev pub listing_filters : Listing → Option TaskStatus → Filters
listing_filters q status = record {
  status = status;
  task_type = q.task_type;
  queue_name = q.queue_name;
  biz_key = q.biz_key;
}

-- TaskQueryService.list_tasks: limit = page_size, offset = (page - 1) * page_size
unfoldable pub page_of : HttpEnv → Filters → ℕ → ℕ → Session → List (Row Task)
unfolding list_tasks
page_of h f page page_size s = list_tasks h.ties f page_size ((page - 1) * page_size) s

abbrev pub item_response : Row Task → TaskListItemResponse
item_response r = record {
  task_id = r.key;
  task_type = r.live.task_type;
  queue_name = r.live.queue_name;
  task_role = role_text r.live.task_role;
  status = status_text r.live.status;
  progress = r.live.progress;
  created_at = r.live.created_at;
  finished_at = r.live.finished_at;
}

unfoldable pub list_tasks_route : HttpEnv → Listing → Session → Answer (Body × Session)
unfolding page_of
list_tasks_route h q s = elim (status_filter q.status) [
  | err e ↦ Answer.crashes e
  | ok status ↦ Answer.answers 200 (
    Body.listed (map item_response (page_of h (listing_filters q status) q.page q.page_size s)),
    s,
  )
]

abbrev pub cancel_answer : ℕ → Option Task × Session → Answer (Body × Session)
cancel_answer id (none, s) = no_task
cancel_answer id (some t, s) = Answer.answers 200 (
  Body.canceled (record {
    task_id = id;
    cancel_requested = t.cancel_requested;
    status = status_text t.status;
  }),
  s,
)

unfoldable pub cancel_task_route : HttpEnv → ℕ → Session → Answer (Body × Session)
unfolding request_cancel
cancel_task_route h id s = cancel_answer id (request_cancel h.env id s)

abbrev pub retry_answer : ℕ → Option Task × Session → Answer (Body × Session)
retry_answer id (none, s) = no_task
retry_answer id (some t, s) = Answer.answers 200 (
  Body.retried
      (record { task_id = id; status = status_text t.status; message = "task rescheduled" }),
  s,
)

unfoldable pub retry_task_route : HttpEnv → ℕ → Session → Answer (Body × Session)
unfolding retry_task
retry_task_route h id s = retry_answer id (retry_task h.env id s)

abbrev pub event_response : TaskEvent → TaskEventResponse
event_response e = record {
  event_type = e.event_type;
  from_status = e.from_status;
  to_status = e.to_status;
  message = e.message;
  event_payload = e.event_payload;
  created_at = e.created_at;
}

unfoldable pub list_task_events_route : HttpEnv → ℕ → Session → Answer (Body × Session)
list_task_events_route h id s = elim (get_task id s) [
  | none ↦ no_task
  | some t ↦
      if h.env.settings.task_event_db_enabled
      then Answer.answers 200 (Body.events (map event_response (list_events id s)), s)
      else Answer.answers 200 (Body.events [], s)
]

abbrev pub child_response : Row Task → TaskChildResponse
child_response r = record {
  task_id = r.key;
  task_type = r.live.task_type;
  task_role = role_text r.live.task_role;
  parent_task_id = r.live.parent_task_id;
  status = status_text r.live.status;
  shard_index = r.live.shard_index;
  shard_key = r.live.shard_key;
  progress = r.live.progress;
  error_code = r.live.error_code;
  error_message = r.live.error_message;
  created_at = r.live.created_at;
  finished_at = r.live.finished_at;
}

unfoldable pub list_task_children_route : ℕ → Session → Answer (Body × Session)
list_task_children_route id s = elim (get_task id s) [
  | none ↦ no_task
  | some t ↦ Answer.answers 200 (Body.children (map child_response (list_children id s)), s)
]

-- a request to one of the routes
pub data TaskRequest : Type 0 where
  create : TaskCreateRequest → TaskRequest
  show cancel retry show_events show_children : (task_id : ℕ) → TaskRequest
  list : Listing → TaskRequest

abbrev pub route : HttpEnv → Headers → TaskRequest → Session → Answer (Body × Session)
route h headers (TaskRequest.create r) = create_task_route h headers r
route h headers (TaskRequest.show id) = get_task_route id
route h headers (TaskRequest.list q) = list_tasks_route h q
route h headers (TaskRequest.cancel id) = cancel_task_route h id
route h headers (TaskRequest.retry id) = retry_task_route h id
route h headers (TaskRequest.show_events id) = list_task_events_route h id
route h headers (TaskRequest.show_children id) = list_task_children_route id

unfoldable pub serve : HttpEnv → Headers → TaskRequest → Session → Answer Body × Session
unfolding with_api_key
serve h headers r db = with_api_key commit h headers (route h headers r) db
