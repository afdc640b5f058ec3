-- ===== src/Http/Polymarket.antt =====
-- app/interfaces/http/routes/polymarket.py, with polymarket_query_service.py and the responses of
-- contracts/http/polymarket.py.
use amsz_web.Services.Commands.{Accepted}
use amsz_web.Polymarket.Store.{get_event, get_sync_run}
use amsz_web.Polymarket.Commands.{
  PolymarketCatalogSyncRequest, create_catalog_sync_task, PolymarketSnapshotSyncRequest,
  create_snapshot_sync_task,
}
use amsz_web.Polymarket.Queries.{list_events, list_snapshots}
use amsz_web.Base.{ℕ, String, Bool, Option, none, some, List, map, if◌then◌else◌}
use amsz_web.Session.{Session, Result, ok, err, commit}
use amsz_web.Polymarket.{
  Market, flush_market, Figures, PolymarketEventSnapshot, PolymarketSyncRun, PolymarketEvent,
}
use amsz_web.Http.{Answer, HttpEnv, Headers, with_api_key, status_text}

pub record PolymarketSyncTriggerResponse : Type 0 where
  pub task_id : ℕ
  pub status : String
  pub message : String

abbrev trigger_answer :
    String
    → HttpEnv
    → Result (Accepted × Session)
    → Answer (PolymarketSyncTriggerResponse × Session)
trigger_answer message h (err e) = Answer.crashes e
trigger_answer message h (ok (a, s)) =
    Answer.answers (if a.created then 202 else 200)
      (record { task_id = a.task_id; status = status_text a.status; message = message }, s)

-- the two POST routes
pub data SyncRequest : Type 0 where
  catalog : PolymarketCatalogSyncRequest → SyncRequest
  snapshot : PolymarketSnapshotSyncRequest → SyncRequest

unfoldable pub trigger :
    HttpEnv
    → String
    → Headers
    → SyncRequest
    → Session
    → Answer (PolymarketSyncTriggerResponse × Session)
unfolding create_catalog_sync_task create_snapshot_sync_task
trigger h worker_queue headers (SyncRequest.catalog r) s =
    trigger_answer "catalog sync accepted" h
      (create_catalog_sync_task h.env worker_queue r headers.x_client_id headers.request_id s)
trigger h worker_queue headers (SyncRequest.snapshot r) s =
    trigger_answer "snapshot sync accepted" h
      (create_snapshot_sync_task h.env worker_queue r headers.x_client_id headers.request_id s)

unfoldable pub serve_trigger :
    HttpEnv
    → String
    → Headers
    → SyncRequest
    → Session
    → Answer PolymarketSyncTriggerResponse × Session
unfolding trigger with_api_key
serve_trigger h worker_queue headers r db =
    with_api_key commit h headers (trigger h worker_queue headers r) db

-- PolymarketEventResponse, whose columns are those of the event less four
pub record PolymarketEventResponse : Type 0 where
  pub polymarket_event_id : String
  pub slug : Option String
  pub title : Option String
  pub category : Option String
  pub subcategory : Option String
  pub featured : Option Bool
  pub figures : Figures
  pub source_created_at : Option ℕ
  pub last_snapshot_at : Option ℕ
  pub synced_at : ℕ

abbrev pub to_event_response : PolymarketEvent → PolymarketEventResponse
to_event_response e = record {
  polymarket_event_id = e.polymarket_event_id;
  slug = e.slug;
  title = e.title;
  category = e.category;
  subcategory = e.subcategory;
  featured = e.featured;
  figures = e.figures;
  source_created_at = e.source_created_at;
  last_snapshot_at = e.last_snapshot_at;
  synced_at = e.synced_at;
}

pub record PolymarketEventSnapshotResponse : Type 0 where
  pub snapshot_time : ℕ
  pub snapshot_granularity : String
  pub figures : Figures

abbrev pub snapshot_response : PolymarketEventSnapshot → PolymarketEventSnapshotResponse
snapshot_response e = record {
  snapshot_time = e.snapshot_time;
  snapshot_granularity = e.snapshot_granularity;
  figures = e.figures;
}

-- the query of list_polymarket_event_snapshots
pub record SnapshotQuery : Type 0 where
  pub event_id : String
  pub granularity : Option String
  pub start_at : Option ℕ
  pub end_at : Option ℕ
  pub limit : ℕ

pub data MarketRequest : Type 0 where
  events : (active : Option Bool) (limit : ℕ) → MarketRequest
  event : (event_id : String) → MarketRequest
  snapshots : SnapshotQuery → MarketRequest
  sync_run : (run_id : ℕ) → MarketRequest

-- the run's response has the columns of the row
pub data MarketBody : Type 0 where
  events : List PolymarketEventResponse → MarketBody
  event : PolymarketEventResponse → MarketBody
  snapshots : List PolymarketEventSnapshotResponse → MarketBody
  sync_run : (run_id : ℕ) → PolymarketSyncRun → MarketBody

unfoldable pub show_market : MarketRequest → Market → Answer (MarketBody × Market)
unfolding list_events get_event list_snapshots get_sync_run
show_market (MarketRequest.events active limit) m =
    Answer.answers 200
      (MarketBody.events (map (λ r. to_event_response r.live) (list_events active limit m)), m)
show_market (MarketRequest.event id) m = elim (get_event id m) [
  | none ↦ Answer.refuses 404 "Polymarket event not found"
  | some r ↦ Answer.answers 200 (MarketBody.event (to_event_response r.live), m)
]
show_market (MarketRequest.snapshots q) m = Answer.answers 200 (
  MarketBody.snapshots (
      map (λ r. snapshot_response r.live)
        (list_snapshots q.event_id q.granularity q.start_at q.end_at q.limit m)),
  m,
)
show_market (MarketRequest.sync_run id) m = elim (get_sync_run id m) [
  | none ↦ Answer.refuses 404 "Polymarket sync run not found"
  | some r ↦ Answer.answers 200 (MarketBody.sync_run id r, m)
]

unfoldable pub serve_market :
    HttpEnv → Headers → MarketRequest → Market → Answer MarketBody × Market
unfolding show_market with_api_key
serve_market h headers r db = with_api_key flush_market h headers (show_market r) db
