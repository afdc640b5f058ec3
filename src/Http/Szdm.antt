-- ===== src/Http/Szdm.antt =====
-- app/interfaces/http/routes/szdm.py, with szdm_query_service.py and the responses of
-- contracts/http/szdm.py. The bucket is a parameter: what get_json gives, or its exception.
use amsz_web.Szdm.Reports.{update_item_priority, get_job, update_job_priority}
use amsz_web.Table.{Row}
use amsz_web.Session.{◌>>=◌}
use amsz_web.Base.{
  ℕ, String, Option, none, some, List, map, ◌+◌, ◌*◌, ◌-◌, max, ◌==◌, if◌then◌else◌,
}
use amsz_web.Domain.{Json, Fields}
use amsz_web.Session.{Result, ok, err}
use amsz_web.Szdm.{SzdmJob, SzdmItem, Board, refresh_job_counts}
use amsz_web.Http.{Answer, HttpEnv, Headers, with_api_key, refused_with}
use amsz_web.Szdm.Creation.{
  list_items, flush_board, SzdmEnv, JobCreated, SzdmJobCreateRequest, ItemFilters, Ids, create_job,
}

pub record SzdmJobResponse : Type 0 where
  pub job_id : ℕ
  pub parent_task_id : ℕ
  pub status : String
  pub priority : ℕ
  pub item_count : ℕ
  pub dispatched_count : ℕ
  pub running_count : ℕ
  pub succeeded_count : ℕ
  pub failed_count : ℕ
  pub reused_count : ℕ
  pub generated_count : ℕ
  pub progress : ℕ
  pub input_s3_key : String
  pub report_status : String
  pub report_s3_key : Option String
  pub report_summary : Option Json
  pub finished_at : Option ℕ

pub record SzdmItemResponse : Type 0 where
  pub item_id : ℕ
  pub item_index : ℕ
  pub item_key : String
  pub condition_key : String
  pub status : String
  pub reuse_status : String
  pub priority : ℕ
  pub child_task_id : Option ℕ
  pub result_s3_key : Option String
  pub metrics : Option Json
  pub display_summary : Option Json
  pub error_code : Option String
  pub error_message : Option String
  pub started_at : Option ℕ
  pub finished_at : Option ℕ

pub record SzdmPriorityResponse : Type 0 where
  pub id : ℕ
  pub priority : ℕ
  pub message : String

-- `percent c t` is int(c / t * 100)
abbrev pub job_response : HttpEnv → ℕ → SzdmJob → SzdmJobResponse
job_response h id j = record {
  job_id = id;
  parent_task_id = j.parent_task_id;
  status = j.status;
  priority = j.priority;
  item_count = j.item_count;
  dispatched_count = j.dispatched_count;
  running_count = j.running_count;
  succeeded_count = j.succeeded_count;
  failed_count = j.failed_count;
  reused_count = j.reused_count;
  generated_count = j.generated_count;
  progress = h.env.percent (j.succeeded_count + j.failed_count) (max j.item_count 1);
  input_s3_key = j.input_s3_key;
  report_status = j.report_status;
  report_s3_key = j.report_s3_key;
  report_summary = j.report_summary_json;
  finished_at = j.finished_at;
}

abbrev pub szdm_item_response : Row SzdmItem → SzdmItemResponse
szdm_item_response r = record {
  item_id = r.key;
  item_index = r.live.item_index;
  item_key = r.live.item_key;
  condition_key = r.live.condition_key;
  status = r.live.status;
  reuse_status = r.live.reuse_status;
  priority = r.live.priority;
  child_task_id = r.live.child_task_id;
  result_s3_key = r.live.result_s3_key;
  metrics = r.live.metrics_json;
  display_summary = r.live.display_summary_json;
  error_code = r.live.error_code;
  error_message = r.live.error_message;
  started_at = r.live.started_at;
  finished_at = r.live.finished_at;
}

pub data SzdmBody : Type 0 where
  created : JobCreated → SzdmBody
  job : SzdmJobResponse → SzdmBody
  items : List SzdmItemResponse → SzdmBody
  report : SzdmJobResponse → (report_data : Option Json) → SzdmBody
  prioritized : SzdmPriorityResponse → SzdmBody

abbrev no_job {ℓ} : {A : Type ℓ} → Answer A
no_job = Answer.refuses 404 "SZDM job not found"

-- SzdmQueryService.get_job: the job, after its counts are refreshed
abbrev counted_query : HttpEnv → ℕ → Board → Option SzdmJob → Result (Option SzdmJob × Board)
counted_query h id p none = ok (none, p)
counted_query h id p (some j) = refresh_job_counts h.env id p >>= λ q. ok (get_job id q, q)

unfoldable pub query_job : HttpEnv → ℕ → Board → Result (Option SzdmJob × Board)
unfolding refresh_job_counts
query_job h id p = counted_query h id p (get_job id p)

-- dict(loaded) if isinstance(loaded, dict) else {"value": loaded}, and None where an exception is raised
abbrev report_data : Result Json → Option Json
report_data (err e) = none
report_data (ok (Json.obj p)) = some (Json.obj p)
report_data (ok v) = some (Json.obj (Fields.field "value" v Fields.end))

abbrev loaded_report : (String → Result Json) → Option String → Option Json
loaded_report get_json none = none
loaded_report get_json (some String.[]) = none
loaded_report get_json (some k) = report_data (get_json k)

abbrev job_answer : HttpEnv → ℕ → Result (Option SzdmJob × Board) → Answer (SzdmBody × Board)
job_answer h id (err e) = Answer.crashes e
job_answer h id (ok (none, p)) = no_job
job_answer h id (ok (some j, p)) = Answer.answers 200 (SzdmBody.job (job_response h id j), p)

abbrev report_answer :
    HttpEnv
    → (String → Result Json)
    → ℕ
    → Result (Option SzdmJob × Board)
    → Answer (SzdmBody × Board)
report_answer h get_json id (err e) = Answer.crashes e
report_answer h get_json id (ok (none, p)) = no_job
report_answer h get_json id (ok (some j, p)) =
    Answer.answers 200
      (SzdmBody.report (job_response h id j) (loaded_report get_json j.report_s3_key), p)

abbrev created_job : HttpEnv → Result (JobCreated × Board) → Answer (SzdmBody × Board)
created_job h (err e) = refused_with 400 h e
created_job h (ok (c, p)) = Answer.answers 202 (SzdmBody.created c, p)

abbrev raised_job : HttpEnv → ℕ → Result (SzdmJob × Board) → Answer (SzdmBody × Board)
raised_job h id (err e) = refused_with 404 h e
raised_job h id (ok (j, p)) = Answer.answers 200 (
  SzdmBody.prioritized
      (record { id = id; priority = j.priority; message = "job priority updated" }),
  p,
)

-- The item's job is compared after the write; the refusal rolls the write back.
abbrev raised_item : HttpEnv → ℕ → ℕ → Result (SzdmItem × Board) → Answer (SzdmBody × Board)
raised_item h job_id id (err e) = refused_with 404 h e
raised_item h job_id id (ok (i, p)) =
    if i.job_id == job_id
    then Answer.answers 200 (
      SzdmBody.prioritized
          (record { id = id; priority = i.priority; message = "item priority updated" }),
      p,
    )
    else Answer.refuses 404 "SZDM item not found"

abbrev item_of_job :
    HttpEnv → ℕ → ℕ → ℕ → Result (Option SzdmJob × Board) → Answer (SzdmBody × Board)
item_of_job h job_id id priority (err e) = Answer.crashes e
item_of_job h job_id id priority (ok (none, p)) = no_job
item_of_job h job_id id priority (ok (some j, p)) =
    raised_item h job_id id (update_item_priority id priority p)

-- a page of the items
pub record ItemPage : Type 0 where
  pub filters : ItemFilters
  pub page : ℕ
  pub page_size : ℕ

pub data SzdmRequest : Type 0 where
  create : SzdmJobCreateRequest → SzdmRequest
  show show_report : (job_id : ℕ) → SzdmRequest
  list : (job_id : ℕ) → ItemPage → SzdmRequest
  raise_job : (job_id priority : ℕ) → SzdmRequest
  raise_item : (job_id item_id priority : ℕ) → SzdmRequest

module _ (z : SzdmEnv) (ids : Ids) (get_json : String → Result Json) where
  unfoldable pub szdm_route : HttpEnv → Headers → SzdmRequest → Board → Answer (SzdmBody × Board)
  unfolding query_job create_job list_items update_job_priority update_item_priority
  szdm_route h headers (SzdmRequest.create r) p =
      created_job h (create_job z ids r headers.x_client_id p)
  szdm_route h headers (SzdmRequest.show id) p = job_answer h id (query_job h id p)
  szdm_route h headers (SzdmRequest.show_report id) p =
      report_answer h get_json id (query_job h id p)
  szdm_route h headers (SzdmRequest.list id q) p = Answer.answers 200 (
    SzdmBody.items (
        map szdm_item_response
          (list_items id q.filters q.page_size ((q.page - 1) * q.page_size) p)),
    p,
  )
  szdm_route h headers (SzdmRequest.raise_job id priority) p =
      raised_job h id (update_job_priority id priority p)
  szdm_route h headers (SzdmRequest.raise_item job_id id priority) p =
      item_of_job h job_id id priority (query_job h job_id p)

  unfoldable pub serve_szdm : HttpEnv → Headers → SzdmRequest → Board → Answer SzdmBody × Board
  unfolding szdm_route with_api_key
  serve_szdm h headers r db = with_api_key flush_board h headers (szdm_route h headers r) db
