-- ===== src/Polymarket/Snapshots.antt =====
-- polymarket_sync_service.py: run_snapshot_sync, which stores the figures of a list of events.
pub mod Outcome
pub mod Runs
use amsz_web.Services.Fanout.{get_field}
use amsz_web.Polymarket.Queries.{Descending, list_events_for_snapshot}
use amsz_web.Polymarket.Store.{
  StateUpdate, RunEnd, RunStart, upsert_event, store_raw_event, create_sync_run, insert_snapshot,
}
use amsz_web.Polymarket.Sync.{
  bucket_snapshot_time, succeed_run, SyncEnv, normalize_limit, end_market, fail_run, max_datetime,
  failed_end, default_granularity, list_of,
}
use amsz_web.Polymarket.Values.{Builtins, str_of, extract_source_updated_at, truth, column}
use amsz_web.Base.{
  ℕ, suc, String, Option, none, some, List, [], ◌∷◌, map, length, append, if◌then◌else◌, or_else,
  ◌+◌,
}
use amsz_web.Domain.{Json, Fields}
use amsz_web.Session.{◌>>=◌, Result, ok, err, Error}
use amsz_web.Polymarket.{Market, flush_market}

-- `fetch n id` is what the n-th call of get_event_by_id does.
abbrev pub FetchEvent : Type 0
FetchEvent = ℕ → String → Result Fields

-- the variables of the loop, and the database
pub record SnapshotSync : Type 0 where
  pub page_count : ℕ
  pub record_count : ℕ
  pub latest_updated_at : Option ℕ
  pub db : Market

-- what stays the same through the loop
pub record SnapshotArgs : Type 0 where
  pub run_id : ℕ
  pub total : ℕ
  pub snapshot_time : ℕ
  pub granularity : String

-- the transaction of one event
unfoldable pub store_snapshot :
    Builtins → SnapshotArgs → Fields → ℕ → Market → Result (Unit {0} × Market)
store_snapshot b a p at m = do
  m1 ← upsert_event b (Json.obj p) at m
  (key, m2) ← store_raw_event b (Json.obj p) at m1
  m3 ← insert_snapshot b (Json.obj p) a.snapshot_time a.granularity (some a.run_id) m2
  ok (tt, m3)

-- how the loop, or one turn of it, ends: with the variables, and the exception if there was one
abbrev pub SnapshotEnd : Type 0
SnapshotEnd = Option Error × SnapshotSync

abbrev pub told : Result (Unit {0}) → SnapshotSync → SnapshotEnd
told (ok u) s = (none, s)
told (err e) s = (some e, s)

-- the counters and the progress, where the event's transaction is committed
abbrev pub counted_snapshot :
    SyncEnv → SnapshotArgs → Fields → SnapshotSync → Result (Unit {0}) × Market → SnapshotEnd
counted_snapshot env a p s (err e, db) = (some e, s)
counted_snapshot env a p s (ok u, db) =
    told (env.progress (suc s.page_count) (env.percent (suc s.page_count) a.total) "snapshot_sync")
      (record {
        page_count = suc s.page_count;
        record_count = suc s.record_count;
        latest_updated_at =
            max_datetime s.latest_updated_at (extract_source_updated_at env.builtins p);
        db = db;
      })

abbrev pub snapshot_fetched : SyncEnv → SnapshotArgs → SnapshotSync → Result Fields → SnapshotEnd
snapshot_fetched env a s (err e) = (some e, s)
snapshot_fetched env a s (ok p) =
    counted_snapshot env a p s
      (end_market s.db (store_snapshot env.builtins a p (env.clock (suc s.page_count)) s.db))

-- the next turn, where this one did not raise
abbrev pub next_event : SnapshotEnd → (SnapshotSync → SnapshotEnd) → SnapshotEnd
next_event (some e, t) k = (some e, t)
next_event (none, t) k = k t

-- for index, event_id in enumerate(event_ids, start=1)
unfoldable pub snapshot_loop :
    SyncEnv → FetchEvent → SnapshotArgs → List String → SnapshotSync → SnapshotEnd
unfolding store_snapshot
snapshot_loop env fetch a [] s = (none, s)
snapshot_loop env fetch a (id ∷ ids) s =
    next_event (snapshot_fetched env a s (fetch (suc s.page_count) id))
      (snapshot_loop env fetch a ids)

-- the dict that the handler returns; the time is missing where there are no events
pub record SnapshotResult : Type 0 where
  pub scope : String
  pub page_count : ℕ
  pub record_count : ℕ
  pub snapshot_granularity : String
  pub snapshot_time : Option ℕ

abbrev pub snapshot_succeeded : ℕ → SnapshotSync → RunEnd
snapshot_succeeded at s = record {
  status = "SUCCEEDED";
  cursor_out = none;
  page_count = s.page_count;
  record_count = s.record_count;
  error_message = none;
  finished_at = at;
}

abbrev pub snapshot_state : ℕ → ℕ → SnapshotSync → StateUpdate
snapshot_state at time s = record {
  active_cursor = none;
  last_success_at = some at;
  last_snapshot_at = some time;
  last_event_updated_at = s.latest_updated_at;
}

abbrev pub snapshot_resource : String → String
snapshot_resource scope = append "events.snapshot." scope

-- the except branch
abbrev pub snapshot_failed {ℓ} :
    {A : Type ℓ} → SyncEnv → ℕ → Error → SnapshotSync → Market → Result A × Market
snapshot_failed env run_id e s db =
    fail_run run_id
      (failed_end env none s.page_count s.record_count (env.clock (s.page_count + 2)) e) e db

-- what is returned after the transaction of success
abbrev pub snapshot_closed :
    SyncEnv
    → ℕ
    → SnapshotResult
    → SnapshotSync
    → Result (Unit {0}) × Market
    → Result SnapshotResult × Market
snapshot_closed env run_id r s (err e, db) = snapshot_failed env run_id e s db
snapshot_closed env run_id r s (ok u, db) = (ok r, db)

abbrev pub snapshot_result : String → SnapshotArgs → SnapshotSync → SnapshotResult
snapshot_result scope a s = record {
  scope = scope;
  page_count = s.page_count;
  record_count = s.record_count;
  snapshot_granularity = a.granularity;
  snapshot_time = some a.snapshot_time;
}

unfoldable pub after_snapshots :
    SyncEnv → String → SnapshotArgs → SnapshotEnd → Result SnapshotResult × Market
unfolding succeed_run fail_run
after_snapshots env scope a (some e, s) = snapshot_failed env a.run_id e s s.db
after_snapshots env scope a (none, s) =
    let at = env.clock (suc s.page_count) in
    snapshot_closed env a.run_id (snapshot_result scope a s) s (
      succeed_run a.run_id (snapshot_succeeded at s) (snapshot_resource scope) (some scope)
        (snapshot_state at a.snapshot_time s) s.db)

abbrev pub no_snapshots : Market → SnapshotSync
no_snapshots db = record { page_count = 0; record_count = 0; latest_updated_at = none; db = db }

-- `if not event_ids`, outside of the try block
abbrev pub empty_result :
    String → String → Result (Unit {0}) × Market → Result SnapshotResult × Market
empty_result scope granularity (err e, db) = (err e, db)
empty_result scope granularity (ok u, db) = (
  ok (record {
    scope = scope;
    page_count = 0;
    record_count = 0;
    snapshot_granularity = granularity;
    snapshot_time = none;
  }),
  db,
)

unfoldable pub finish_empty :
    SyncEnv → String → String → ℕ → Market → Result SnapshotResult × Market
unfolding succeed_run
finish_empty env scope granularity run_id db = empty_result scope granularity (
    succeed_run run_id (snapshot_succeeded (env.clock 0) (no_snapshots db))
      (snapshot_resource scope) (some scope)
      (snapshot_state (env.clock 0) (env.clock 0) (no_snapshots db)) db)

-- The granularity is checked in front of the try block.
unfoldable pub snapshot_events :
    SyncEnv
    → FetchEvent
    → String
    → String
    → ℕ
    → List String
    → Market
    → Result SnapshotResult × Market
unfolding bucket_snapshot_time snapshot_loop after_snapshots
snapshot_events env fetch scope granularity run_id ids db =
    elim (bucket_snapshot_time (env.clock 0) granularity) [
      | err e ↦ (err e, db)
      | ok time ↦
          let a : SnapshotArgs = record {
            run_id = run_id;
            total = length ids;
            snapshot_time = time;
            granularity = granularity;
          } in
          after_snapshots env scope a (snapshot_loop env fetch a ids (no_snapshots db))
    ]

unfoldable pub with_events :
    SyncEnv
    → FetchEvent
    → String
    → String
    → ℕ
    → List String
    → Market
    → Result SnapshotResult × Market
unfolding snapshot_events finish_empty
with_events env fetch scope granularity run_id [] db = finish_empty env scope granularity run_id db
with_events env fetch scope granularity run_id (id ∷ ids) db =
    snapshot_events env fetch scope granularity run_id (id ∷ ids) db

abbrev pub snapshot_scope : Builtins → Fields → String
snapshot_scope b p = str_of b (or_else (get_field "scope" p) (Json.str "hot"))

-- str(payload.get("snapshot_granularity") or self._default_granularity(scope))
abbrev pub granularity_of : Builtins → Fields → String
granularity_of b p =
    if truth b (column "snapshot_granularity" p)
    then str_of b (column "snapshot_granularity" p)
    else default_granularity (snapshot_scope b p)

abbrev pub snapshot_start : SyncEnv → String → RunStart
snapshot_start env scope = record {
  task_id = some env.task_id;
  source = "polymarket";
  resource = snapshot_resource scope;
  sync_type = "snapshot";
  scope = some scope;
  cursor_in = none;
}

-- requested_event_ids, or those of the events that the scope selects
abbrev pub event_ids : Descending → String → ℕ → List String → Market → List String
event_ids d scope limit [] m =
    map (λ r. r.live.polymarket_event_id) (list_events_for_snapshot d scope limit m)
event_ids d scope limit (id ∷ ids) m = id ∷ ids

-- the limit and the requested events
abbrev pub snapshot_inputs : SyncEnv → Fields → Result (ℕ × List Json)
snapshot_inputs env p = do
  limit ← normalize_limit env.builtins (column "limit" p) env.polymarket_snapshot_limit
  ids ← list_of env.builtins (column "event_ids" p)
  ok (limit, ids)

-- what follows, with the first transaction
unfoldable pub snapshot_run :
    SyncEnv
    → Descending
    → FetchEvent
    → Fields
    → ℕ
    → List Json
    → Market
    → Result SnapshotResult × Market
unfolding with_events list_events_for_snapshot create_sync_run
snapshot_run env d fetch p limit ids db =
    let scope = snapshot_scope env.builtins p in
    let made = create_sync_run (snapshot_start env scope) db in
    with_events env fetch scope (granularity_of env.builtins p) made.0
      (event_ids d scope limit (map (str_of env.builtins) ids) made.1) (flush_market made.1)

unfoldable pub run_snapshot_sync :
    SyncEnv → Descending → FetchEvent → Fields → Market → Result SnapshotResult × Market
unfolding snapshot_run normalize_limit
run_snapshot_sync env d fetch p db = elim (snapshot_inputs env p) [
  | err e ↦ (err e, db)
  | ok x ↦ snapshot_run env d fetch p x.0 x.1 db
]
