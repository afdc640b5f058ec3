-- ===== src/Examples/Workers.antt =====
-- The registry, the aggregate handler, and the tasks that are retried or canceled, at concrete
-- arguments.
use amsz_web.Tasks.Claim.{is_claimable}
use amsz_web.Domain.{TaskStatus}
use amsz_web.Table.{get}
use amsz_web.Tasks.Control.{is_cancel_requested, request_cancel, retry_task}
use amsz_web.Base.{ℕ, ◌≡◌, List, ◌++◌, none, some, refl, ◌∷◌, [], true, arith}
use amsz_web.Models.{Task}
use amsz_web.Tasks.Claim.Requeued.{retry_task_claimable, request_cancel_stops}
use amsz_web.Examples.Data.{plain_builtins, env_at, five_tasks, running_task}
use amsz_web.Handlers.Registry.{Handlers, build_handler_registry, merge_all}
use amsz_web.Domain.{Json, Fields, Items}
use amsz_web.Base.{refl}
use amsz_web.Handlers.Batch.{
  Aggregated, HasItems, Collects, aggregate_results, aggregate_results-Collects,
}
use amsz_web.Tasks.Family.Summary.{ChildResult}
use amsz_web.Session.{ok, Session, commit}

-- handlers by number
abbrev basic_handlers : Handlers ℕ
basic_handlers = ("noop.success", 1) ∷ ("sleep.echo", 2) ∷ ("force.retry", 3) ∷ []

abbrev batch_handlers : Handlers ℕ
batch_handlers = ("batch.sleep.echo.shard", 4) ∷ ("batch.sleep.echo.aggregate", 5) ∷ []

abbrev polymarket_handlers : Handlers ℕ
polymarket_handlers =
    ("polymarket.events.catalog_sync", 6) ∷ ("polymarket.events.snapshot_sync", 7) ∷ []

abbrev szdm_handlers : Handlers ℕ
szdm_handlers = ("szdm.sub", 8) ∷ ("szdm.aggregate", 9) ∷ []

abbrev default_groups : List (Handlers ℕ)
default_groups = basic_handlers ∷ batch_handlers ∷ polymarket_handlers ∷ szdm_handlers ∷ []

abbrev default_registry : Handlers ℕ
default_registry = basic_handlers ++ batch_handlers ++ polymarket_handlers ++ szdm_handlers

default_builds :
    build_handler_registry basic_handlers batch_handlers polymarket_handlers szdm_handlers "default"
    ≡ ok default_registry
unfolding build_handler_registry merge_all
default_builds = refl

-- the reply of a shard with one item
abbrev shard_reply : ℕ → Fields
shard_reply n = Fields.field "items" (Json.arr (Items.cons (Json.num n) Items.nil)) Fields.end

abbrev child_result : ℕ → ChildResult
child_result n = record {
  task_id = n;
  shard_index = some n;
  shard_key = none;
  result = some (Json.obj (shard_reply n));
}

child_result-HasItems : (n : ℕ) → (xs : List Json) × HasItems (child_result n) xs
child_result-HasItems n =
    (Json.num n ∷ [], HasItems.listed (shard_reply n) (Items.cons (Json.num n) Items.nil) refl refl)

abbrev two_results : List ChildResult
two_results = child_result 1 ∷ child_result 0 ∷ []

aggregate_results-Collects_example :
    (a : Aggregated) × (aggregate_results plain_builtins two_results ≡ ok a)
    × Collects two_results a
aggregate_results-Collects_example =
    aggregate_results-Collects plain_builtins two_results
      (child_result-HasItems 1, (child_result-HasItems 0, tt))

abbrev failed_session : Session
failed_session = record five_tasks {
  tasks =
      record {
        key = 3;
        stored = running_task;
        live = record running_task { status = TaskStatus.dead };
      }
      ∷ [];
}

retry_task_claimable_example :
    (t' : Task) × (get 3 (commit (retry_task (env_at 100) 3 failed_session).1).tasks ≡ some t')
    × (is_claimable (env_at 100) "default" t' ≡ true)
retry_task_claimable_example =
    retry_task_claimable (env_at 100) (env_at 100) 3 failed_session
      (record running_task { status = TaskStatus.dead }) refl refl refl (omega arith)

request_cancel_stops_example :
    (is_cancel_requested 3 none (request_cancel (env_at 100) 3 five_tasks).1 ≡ true)
    × (is_cancel_requested 9 (some 3) (request_cancel (env_at 100) 3 five_tasks).1 ≡ true)
request_cancel_stops_example =
    request_cancel_stops (env_at 100) 3 9 none five_tasks running_task refl refl refl
