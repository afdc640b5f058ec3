-- ===== src/Szdm/Handlers.antt =====
-- workers/modules/szdm.py: the handlers of an item and of the report. The storage client, strptime,
-- strftime, the context of the worker, floats, json and hashlib are parameters.

pub mod Reuse
pub mod Ended
use amsz_web.Polymarket.Values.{column}
use amsz_web.Szdm.Reports.{get_job, Report, finish_report, list_all_items}
use amsz_web.Szdm.Creation.{flush_board}
use amsz_web.Szdm.Items.{mark_item_failed, ItemResult, mark_item_running, mark_item_succeeded}
use amsz_web.Storage.{text_before, ends_with, strip_prefix, after_slashes}
use amsz_web.Base.{
  ℕ, zero, suc, ◌+◌, ◌≡◌, String, Bool, Option, none, some, List, [], ◌∷◌, length, ltb, leb, ◌==◌,
  ◌&&◌, not, append, decimal, str_eq, max, false, text_length, true, if◌then◌else◌, or_else, ◌%◌,
  ◌++◌, is_some,
}
use amsz_web.Domain.{Json, Fields, Items}
use amsz_web.Table.{Row}
use amsz_web.Table.Order.{order_by}
use amsz_web.Session.{◌>>=◌, Env, Result, ok, err, Error, seconds}
use amsz_web.Szdm.{SzdmJob, SzdmItem, Board}
use Prim.Native.Char.{code}

-- `env n` has the clock of the n-th reading; `canceled` is raise_if_canceled, `progress` set_progress;
-- `score n` is the float n / 100; `as_dict` is dict(value or {}); `error_code` is the attribute of an
-- exception, and `message` its text; `total` is the sum of the scores, and `average` that by a number.
pub record HandlerEnv : Type 0 where
  pub env : ℕ → Env
  pub attempt_no : ℕ
  pub canceled : Result (Unit {0})
  pub progress : ℕ → String → Result (Unit {0})
  pub list_json_keys : String → Result (List String)
  pub get_json : String → Result Json
  pub put_json : String → Json → Result String
  pub to_uri : String → String
  pub strptime : String → Option ℕ
  pub strftime : ℕ → String
  pub score : ℕ → Json
  pub as_dict : Json → Result Json
  pub error_code : Error → Option String
  pub message : Error → String
  pub total : List Json → Result Json
  pub average : Json → ℕ → Json
  pub report_hash : Json → String

-- value.split("/")
unfoldable pub split_slash : String → List String
split_slash String.[] = "" ∷ []
split_slash (String.◌∷◌ c s) =
    let rest = split_slash s in
    if code c == 47
    then "" ∷ rest
    else elim rest [ [] ↦ String.◌∷◌ c "" ∷ [] | w ∷ ws ↦ String.◌∷◌ c w ∷ ws ]

-- parts[-2]
abbrev second_last : List String → String
second_last [] = ""
second_last (a ∷ []) = ""
second_last (a ∷ b ∷ []) = a
second_last (a ∷ b ∷ c ∷ rest) = second_last (b ∷ c ∷ rest)

-- _extract_timestamp_from_result_key
unfoldable pub timestamp_of : (String → Option ℕ) → String → Option ℕ
unfolding split_slash
timestamp_of strptime key =
    if ltb (length (split_slash key)) 5 then none else strptime (second_last (split_slash key))

-- (now - timestamp).total_seconds() <= reuse_window_seconds
abbrev pub is_fresh : ℕ → ℕ → Option ℕ → Bool
is_fresh now window none = false
is_fresh now window (some t) = leb now (t + seconds window)

abbrev pub is_reusable : (String → Option ℕ) → ℕ → ℕ → String → Bool
is_reusable strptime now window key =
    ends_with "/result.json" key && is_fresh now window (timestamp_of strptime key)

-- the loop over the keys
unfoldable pub first_reusable : (String → Option ℕ) → ℕ → ℕ → List String → Option String
first_reusable strptime now window [] = none
first_reusable strptime now window (k ∷ ks) =
    let rest = first_reusable strptime now window ks in
    if is_reusable strptime now window k then some k else rest

abbrev pub item_prefix : String → String → String
item_prefix item_key condition_key =
    append "szdm/items/" (append item_key (append "/" condition_key))

-- sorted(candidates, reverse=True)
abbrev pub descending : List String → List String
descending = order_by (λ a b. text_before b a)

-- _find_reusable_result_key
unfoldable pub find_reusable : HandlerEnv → ℕ → SzdmItem → ℕ → Result (Option String)
unfolding first_reusable
find_reusable h now i zero = ok none
find_reusable h now i (suc window) = do
  keys ← h.list_json_keys (item_prefix i.item_key i.condition_key)
  ok (first_reusable h.strptime now (suc window) (descending keys))

-- with session_scope() as session
abbrev pub end_board {ℓ} : {A : Type ℓ} → Board → Result (A × Board) → Result A × Board
end_board db (ok (a, p)) = (ok a, flush_board p)
end_board db (err e) = (err e, db)

-- one statement after another, with the database
abbrev pub then_do {ℓ κ} :
    {A : Type ℓ} {B : Type κ} → Result A × Board → (A → Board → Result B × Board) → Result B × Board
then_do (ok a, p) k = k a p
then_do (err e, p) k = (err e, p)

pub record SubResult : Type 0 where
  pub reuse_status : String
  pub result_s3_key : String

abbrev pub required_job : ℕ → Board → Result SzdmJob
required_job id p = elim (get_job id p) [
  | none ↦ err (Error.task_error false "SZDM job not found" "SZDM_JOB_NOT_FOUND")
  | some j ↦ ok j
]

-- the first transaction
abbrev pub start_item : HandlerEnv → ℕ → ℕ → Board → Result ((SzdmItem × SzdmJob) × Board)
start_item h job_id item_id db = do
  (i, p) ← mark_item_running (h.env 0) item_id h.attempt_no db
  j ← required_job job_id p
  ok ((i, j), p)

abbrev pub stored_result : HandlerEnv → ℕ → ItemResult → Board → Result (SubResult × Board)
stored_result h item_id r p = do
  (i, p1) ← mark_item_succeeded (h.env 3) item_id r p
  ok (record { reuse_status = r.reuse_status; result_s3_key = r.result_s3_key }, p1)

-- result_payload, where it is no dict
abbrev as_payload : Json → Fields
as_payload (Json.obj p) = p
as_payload v = Fields.field "value" v Fields.end

abbrev pub reused_result : HandlerEnv → String → Result ItemResult
reused_result h key = do
  loaded ← h.get_json key
  metrics ← h.as_dict (column "metrics" (as_payload loaded))
  summary ← h.as_dict (column "display_summary" (as_payload loaded))
  ok (record {
    reuse_status = "REUSED";
    result_s3_key = h.to_uri key;
    result_timestamp = or_else (timestamp_of h.strptime key) (h.env 2).now;
    metrics = metrics;
    display_summary = summary;
  })

-- _build_item_result_payload
abbrev pub score_of : HandlerEnv → ℕ → SzdmItem → Json
score_of h item_id i =
    h.score ((text_length i.item_key + text_length i.condition_key + item_id) % 100)

abbrev pub metrics_of : HandlerEnv → ℕ → SzdmItem → Json
metrics_of h item_id i = Json.obj (Fields.field "score" (score_of h item_id i) Fields.end)

abbrev summary_of_item : HandlerEnv → ℕ → SzdmItem → Json
summary_of_item h item_id i = Json.obj (
    Fields.field "item_key" (Json.str i.item_key) (
      Fields.field "condition_key" (Json.str i.condition_key)
        (Fields.field "score" (score_of h item_id i) Fields.end)))

abbrev item_payload : HandlerEnv → ℕ → SzdmItem → Json
item_payload h item_id i = Json.obj (
    Fields.field "item_key" (Json.str i.item_key) (
      Fields.field "condition_key" (Json.str i.condition_key) (
        Fields.field "metrics" (metrics_of h item_id i)
          (Fields.field "display_summary" (summary_of_item h item_id i) Fields.end))))

abbrev result_key : HandlerEnv → SzdmItem → String
result_key h i =
    append (item_prefix i.item_key i.condition_key)
      (append "/" (append (h.strftime (h.env 2).now) "/result.json"))

abbrev pub generated_result : HandlerEnv → ℕ → SzdmItem → Result ItemResult
generated_result h item_id i = do
  u ← h.progress 25 "szdm_processing"
  uri ← h.put_json (result_key h i) (item_payload h item_id i)
  v ← h.progress 90 "szdm_result_stored"
  ok (record {
    reuse_status = "GENERATED";
    result_s3_key = uri;
    result_timestamp = (h.env 2).now;
    metrics = metrics_of h item_id i;
    display_summary = summary_of_item h item_id i;
  })

abbrev pub reuse : HandlerEnv → ℕ → String → Board → Result SubResult × Board
reuse h item_id key db =
    then_do (reused_result h key, db) λ r p. end_board p (stored_result h item_id r p)

abbrev pub generate : HandlerEnv → ℕ → SzdmItem → Board → Result SubResult × Board
generate h item_id i db =
    then_do (generated_result h item_id i, db)
      λ r p.
        then_do (end_board p (stored_result h item_id r p))
          λ s q. then_do (h.progress 100 "completed", q) λ u o. (ok s, o)

abbrev pub found_or_new :
    HandlerEnv → ℕ → SzdmItem → Option String → Board → Result SubResult × Board
found_or_new h item_id i (some key) db = reuse h item_id key db
found_or_new h item_id i none db = generate h item_id i db

-- _execute_szdm_sub
unfoldable pub execute_szdm_sub : HandlerEnv → ℕ → ℕ → Board → Result SubResult × Board
unfolding mark_item_running mark_item_succeeded find_reusable
execute_szdm_sub h job_id item_id db =
    then_do (end_board db (start_item h job_id item_id db)) λ x p.
      then_do (h.canceled, p)
        λ u q.
          then_do (find_reusable h (h.env 1).now x.0 x.1.reuse_window_seconds, q)
            λ key o. found_or_new h item_id x.0 key o

abbrev pub failed_mark : HandlerEnv → ℕ → Error → Board → Result (Unit {0} × Board)
failed_mark h item_id e p = do
  (i, q) ←
      mark_item_failed (h.env 4) item_id (or_else (h.error_code e) "SZDM_SUB_FAILED") (h.message e)
        p
  ok (tt, q)

abbrev pub raised_after : Error → Result (Unit {0}) × Board → Result SubResult × Board
raised_after e (ok u, p) = (err e, p)
raised_after e (err f, p) = (err f, p)

-- except Exception: the item is FAILED, and the exception is raised again
abbrev pub or_item_failed : HandlerEnv → ℕ → Result SubResult × Board → Result SubResult × Board
or_item_failed h item_id (ok r, p) = (ok r, p)
or_item_failed h item_id (err e, p) = raised_after e (end_board p (failed_mark h item_id e p))

unfoldable pub szdm_sub_handler : HandlerEnv → ℕ → ℕ → Board → Result SubResult × Board
unfolding execute_szdm_sub mark_item_failed
szdm_sub_handler h job_id item_id db =
    or_item_failed h item_id (execute_szdm_sub h job_id item_id db)

-- any(item.status != "SUCCEEDED" for item in items)
abbrev pub all_succeeded : List (Row SzdmItem) → Bool
all_succeeded [] = true
all_succeeded (r ∷ rs) = str_eq r.live.status "SUCCEEDED" && all_succeeded rs

abbrev pub if_succeeded :
    SzdmJob → List (Row SzdmItem) → Board → Result ((SzdmJob × List (Row SzdmItem)) × Board)
if_succeeded j items p =
    if all_succeeded items
    then ok ((j, items), p)
    else err
        (Error.task_error false "All SZDM items must succeed before aggregation" "SZDM_NOT_READY")

-- the first transaction
abbrev pub results_if_ready : ℕ → Board → Result ((SzdmJob × List (Row SzdmItem)) × Board)
results_if_ready job_id p =
    required_job job_id p >>= λ j. if_succeeded j (list_all_items job_id p) p

-- a result that is a dict
abbrev only_dict : Json → List Json
only_dict (Json.obj p) = Json.obj p ∷ []
only_dict v = []

abbrev loaded_result : HandlerEnv → Option String → Result (List Json)
loaded_result h none = ok []
loaded_result h (some String.[]) = ok []
loaded_result h (some k) = do v ← h.get_json k; ok (only_dict v)

unfoldable pub item_results : HandlerEnv → List (Row SzdmItem) → Result (List Json)
item_results h [] = ok []
item_results h (r ∷ rs) = do
  here ← loaded_result h r.live.result_s3_key
  rest ← item_results h rs
  ok (here ++ rest)

-- _strip_s3_uri_prefix
unfoldable pub strip_s3_uri_prefix : String → String
unfolding strip_prefix after_slashes
strip_s3_uri_prefix value =
    if is_some (strip_prefix "s3://" value) then after_slashes 3 value else value

abbrev items_json : List Json → Items
items_json [] = Items.nil
items_json (x ∷ xs) = Items.cons x (items_json xs)

abbrev report_summary : HandlerEnv → ℕ → ℕ → Json → Json
report_summary h job_id count total = Json.obj (
    Fields.field "job_id" (Json.num job_id) (
      Fields.field "item_count" (Json.num count)
        (Fields.field "average_score" (h.average total (max count 1)) Fields.end)))

abbrev report_payload : Json → List Json → Json
report_payload summary results = Json.obj (
    Fields.field "summary" summary
      (Fields.field "items" (Json.arr (items_json results)) Fields.end))

-- the report of the items, which is put into the bucket
abbrev pub built_report : HandlerEnv → ℕ → SzdmJob → List (Row SzdmItem) → Result Report
built_report h job_id j items = do
  results ← item_results h items
  total ← h.total results
  let summary = report_summary h job_id (length items) total
  uri ←
      h.put_json (append (strip_s3_uri_prefix j.job_s3_prefix) "/report.json")
        (report_payload summary results)
  ok (record {
    report_s3_key = uri;
    report_hash = h.report_hash (report_payload summary results);
    summary = summary;
    metric_summary = Json.obj (Fields.field "total_score" total Fields.end);
  })

abbrev pub stored_report : HandlerEnv → ℕ → Report → Board → Result (Report × Board)
stored_report h job_id r p = do (j, q) ← finish_report (h.env 1) job_id r p; ok (r, q)

unfoldable pub szdm_aggregate_handler : HandlerEnv → ℕ → Board → Result Report × Board
unfolding item_results strip_s3_uri_prefix finish_report
szdm_aggregate_handler h job_id db = then_do (end_board db (results_if_ready job_id db)) λ x p.
    then_do (h.canceled, p)
      λ u q.
        then_do (built_report h job_id x.0 x.1, q)
          λ r o.
            then_do (end_board o (stored_report h job_id r o))
              λ s n. then_do (h.progress 100 "completed", n) λ v m. (ok s, m)
