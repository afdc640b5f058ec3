-- ===== src/Polymarket/Commands.antt =====
-- polymarket_command_service.py, with the requests of contracts/http/polymarket.py: the tasks of both
-- kinds of synchronisation.
use mathlib.Core.Option
use amsz_web.Base.{[], ◌∷◌, List}
use amsz_web.Base.{ℕ, String, Bool, Option, none, some, append}
use amsz_web.Domain.{Json, Fields, Items, TaskStatus, TaskRole}
use amsz_web.Session.{◌>>=◌, Env, Session, Result, ok}
use amsz_web.Tasks.Create.{NewTask, create_task}
use amsz_web.Services.Commands.{Accepted, accept}

pub record PolymarketCatalogSyncRequest : Type 0 where
  pub scope : String
  pub limit : ℕ
  pub reset_cursor : Bool
  pub closed : Option Bool
  pub queue_name : String

pub record PolymarketSnapshotSyncRequest : Type 0 where
  pub scope : String
  pub limit : ℕ
  pub snapshot_granularity : Option String
  pub event_ids : Option (List String)
  pub queue_name : String

-- model_dump(exclude_none=True)
abbrev or_left_out : String → Option Json → Fields → Fields
or_left_out name none rest = rest
or_left_out name (some v) rest = Fields.field name v rest

abbrev pub catalog_payload : PolymarketCatalogSyncRequest → Json
catalog_payload r = Json.obj (
    Fields.field "scope" (Json.str r.scope) (
      Fields.field "limit" (Json.num r.limit) (
        Fields.field "reset_cursor" (Json.bool r.reset_cursor) (
          or_left_out "closed" (Option.map Json.bool r.closed)
            (Fields.field "queue_name" (Json.str r.queue_name) Fields.end)))))

abbrev texts : List String → Items
texts [] = Items.nil
texts (x ∷ xs) = Items.cons (Json.str x) (texts xs)

abbrev pub snapshot_payload : PolymarketSnapshotSyncRequest → Json
snapshot_payload r = Json.obj (
    Fields.field "scope" (Json.str r.scope) (
      Fields.field "limit" (Json.num r.limit) (
        or_left_out "snapshot_granularity" (Option.map Json.str r.snapshot_granularity) (
          or_left_out "event_ids" (Option.map (λ ids. Json.arr (texts ids)) r.event_ids)
            (Fields.field "queue_name" (Json.str r.queue_name) Fields.end)))))

-- request.queue_name or self.settings.worker_queue
abbrev queue_or : String → String → String
queue_or worker_queue String.[] = worker_queue
queue_or worker_queue (String.◌∷◌ c s) = String.◌∷◌ c s

-- what both tasks have in common
abbrev sync_args : Env → Option String → NewTask
sync_args env created_by = record {
  task_type = "";
  queue_name = "";
  biz_key = none;
  idempotency_key = none;
  priority = 6;
  max_attempts = 3;
  timeout_seconds = 7200;
  scheduled_at = env.now;
  payload = Json.null;
  created_by = created_by;
  status = TaskStatus.pending;
  task_role = TaskRole.standalone;
  parent_task_id = none;
  shard_index = none;
  shard_key = none;
  total_children = 0;
  child_summary = none;
}

abbrev keyed : String → String → String → String
keyed prefix scope request_id = append prefix (append scope (append ":" request_id))

abbrev pub catalog_args :
    Env → String → PolymarketCatalogSyncRequest → Option String → String → NewTask
catalog_args env worker_queue r created_by request_id = record (sync_args env created_by) {
  task_type = "polymarket.events.catalog_sync";
  queue_name = queue_or worker_queue r.queue_name;
  biz_key = some (append "polymarket:catalog:" r.scope);
  idempotency_key = some (keyed "catalog:" r.scope request_id);
  payload = catalog_payload r;
}

abbrev pub snapshot_args :
    Env → String → PolymarketSnapshotSyncRequest → Option String → String → NewTask
snapshot_args env worker_queue r created_by request_id = record (sync_args env created_by) {
  task_type = "polymarket.events.snapshot_sync";
  queue_name = queue_or worker_queue r.queue_name;
  biz_key = some (append "polymarket:snapshot:" r.scope);
  idempotency_key = some (keyed "snapshot:" r.scope request_id);
  payload = snapshot_payload r;
}

unfoldable pub create_catalog_sync_task :
    Env
    → String
    → PolymarketCatalogSyncRequest
    → Option String
    → String
    → Session
    → Result (Accepted × Session)
create_catalog_sync_task env worker_queue r created_by request_id s = do
  (m, s') ← create_task env (catalog_args env worker_queue r created_by request_id) s
  ok (accept m, s')

unfoldable pub create_snapshot_sync_task :
    Env
    → String
    → PolymarketSnapshotSyncRequest
    → Option String
    → String
    → Session
    → Result (Accepted × Session)
create_snapshot_sync_task env worker_queue r created_by request_id s = do
  (m, s') ← create_task env (snapshot_args env worker_queue r created_by request_id) s
  ok (accept m, s')
