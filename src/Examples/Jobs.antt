-- ===== src/Examples/Jobs.antt =====
-- A job with items, and the theorems on it, at concrete arguments.
use amsz_web.Tasks.Events.{add_event}
use amsz_web.Szdm.Once.{Rests, schedule_aggregate_once}
use amsz_web.Szdm.Reports.{schedule_aggregate_if_ready, report_args, start_report}
use amsz_web.Base.{some, none, Option, true, ◌≡◌}
use amsz_web.Session.{ok, err, Result}
use amsz_web.Tasks.Create.{create_task, add_task, Created, new_row}
unfoldable use amsz_web.Base.{decimal}
use amsz_web.Base.{refl}
use amsz_web.Base.{ℕ, ◌∷◌, none, []}
use amsz_web.Examples.Data.{env_at, five_tasks, unlocked, empty_payload}
use amsz_web.Szdm.{SzdmJob, SzdmItem, Board, refresh_job_counts, refreshed_job}
use amsz_web.Szdm.Dispatch.{DispatchArgs, dispatch_items_for_job}
use amsz_web.Szdm.Limits.{Limited, dispatch_items_for_job-Limited}
use amsz_web.Szdm.Items.{
  CountsBefore, ItemResult, mark_item_running, mark_item_succeeded, mark_item_failed,
  mark_item-CountsBefore,
}

abbrev pub small_job : SzdmJob
small_job = record {
  parent_task_id = 4;
  status = "PARTIALLY_RUNNING";
  priority = 5;
  job_s3_prefix = "jobs";
  input_s3_key = "input";
  item_count = 2;
  dispatched_count = 0;
  running_count = 0;
  succeeded_count = 0;
  failed_count = 0;
  reused_count = 0;
  generated_count = 0;
  max_parallel_children = 1;
  dispatch_batch_size = 1;
  reuse_window_seconds = 60;
  report_status = "PENDING";
  report_s3_key = none;
  report_hash = none;
  report_summary_json = none;
  report_metric_summary_json = none;
  finished_at = none;
}

abbrev pub item_at : ℕ → SzdmItem
item_at n = record {
  job_id = 1;
  item_index = n;
  item_key = "item";
  condition_key = "default";
  status = "PENDING";
  reuse_status = "NOT_CHECKED";
  child_task_id = none;
  priority = 5;
  attempt_no = 0;
  result_s3_key = none;
  result_timestamp = none;
  metrics_json = none;
  display_summary_json = none;
  error_code = none;
  error_message = none;
  started_at = none;
  finished_at = none;
}

abbrev pub small_board : Board
small_board = record {
  session = five_tasks;
  jobs = record { key = 1; stored = small_job; live = small_job } ∷ [];
  items =
      record { key = 1; stored = item_at 0; live = item_at 0 }
      ∷ record { key = 2; stored = item_at 1; live = item_at 1 }
      ∷ [];
}

abbrev dispatch_args : DispatchArgs
dispatch_args = record {
  queue_name = "default";
  max_attempts = 3;
  timeout_seconds = 60;
  created_by = none;
  per_job_limit = 10;
}

dispatch_items_for_job-Limited_example :
    Limited dispatch_args 1 small_job small_board
      (dispatch_items_for_job (env_at 100) dispatch_args unlocked 1 small_job small_board)
dispatch_items_for_job-Limited_example =
    dispatch_items_for_job-Limited (env_at 100) dispatch_args unlocked 1 small_job small_board
      (refl, (refl, tt))

abbrev item_result : ItemResult
item_result = record {
  reuse_status = "GENERATED";
  result_s3_key = "result";
  result_timestamp = 100;
  metrics = empty_payload;
  display_summary = empty_payload;
}

mark_item-CountsBefore_example :
    CountsBefore small_board (mark_item_running (env_at 100) 1 1 small_board)
    × CountsBefore small_board (mark_item_succeeded (env_at 100) 1 item_result small_board)
    × CountsBefore small_board (mark_item_failed (env_at 100) 1 "E" "m" small_board)
mark_item-CountsBefore_example =
    mark_item-CountsBefore (env_at 100) 1 1 item_result "E" "m" small_board

-- the job once its items have succeeded
abbrev done_item : ℕ → SzdmItem
done_item n = record (item_at n) { status = "SUCCEEDED" }

abbrev done_board : Board
done_board = record small_board {
  items =
      record { key = 1; stored = done_item 0; live = done_item 0 }
      ∷ record { key = 2; stored = done_item 1; live = done_item 1 }
      ∷ [];
}

abbrev first_report : Result (Option Created × Board)
first_report = schedule_aggregate_if_ready (env_at 100) dispatch_args 1 done_board

abbrev report_task : Result (Option Created × Board) → Option Created
report_task (ok (m, p)) = m
report_task (err e) = none

abbrev report_board : Result (Option Created × Board) → Board
report_board (ok (m, p)) = p
report_board (err e) = done_board

abbrev report_made : Created
report_made = record {
  id = 6;
  task =
      new_row (env_at 100)
        (report_args (env_at 100) dispatch_args 1 (refreshed_job 1 done_board.items small_job));
  created = true;
}

first_report_returns : first_report ≡ ok (some report_made, report_board first_report)
unfolding schedule_aggregate_if_ready refresh_job_counts start_report create_task add_task add_event
    decimal
first_report_returns = refl

schedule_aggregate_once_example :
    Rests
      (report_board first_report)
      (schedule_aggregate_if_ready (env_at 200) dispatch_args 1 (report_board first_report))
schedule_aggregate_once_example =
    schedule_aggregate_once (env_at 100) (env_at 200) dispatch_args dispatch_args 1 done_board
      (report_board first_report) report_made first_report_returns
