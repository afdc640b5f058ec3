-- ===== src/Polymarket/Snapshots/Runs.antt =====
-- polymarket_sync_service.py: run_snapshot_sync and the row of its run.
use amsz_web.Polymarket.Store.{create_sync_run}
use amsz_web.Polymarket.Queries.{Descending}
use amsz_web.Polymarket.Sync.{bucket_snapshot_time}
use amsz_web.Session.{Error}
use amsz_web.Polymarket.Values.{str_of}
use amsz_web.Table.{get}
use amsz_web.Polymarket.Catalog.Runs.{
  HasRun, flush_market-HasRun, create_sync_run-HasRun, succeed_run-succeeds, succeed_run-HasRun,
}
use amsz_web.Polymarket.Unique.Steps.{IsSound}
use amsz_web.Polymarket.Store.{new_run, get_sync_run, finished_run}
use amsz_web.Base.{[], ◌∷◌, map, some, length, none, ap, ◌∙◌}
use amsz_web.Base.{ℕ, String, ◌≡◌, refl, List}
use amsz_web.Domain.{Json, Fields}
use amsz_web.Session.{ok, err}
use amsz_web.Polymarket.{Market, flush_market, PolymarketSyncRun}
use amsz_web.Polymarket.Sync.{SyncEnv}
use amsz_web.Polymarket.Snapshots.{
  run_snapshot_sync, FetchEvent, event_ids, finish_empty, with_events, snapshot_start, snapshot_run,
  snapshot_events, snapshot_succeeded, snapshot_scope, snapshot_inputs, no_snapshots, SnapshotArgs,
  granularity_of, snapshot_state, snapshot_resource, snapshot_loop,
}
use amsz_web.Polymarket.Snapshots.Outcome.{
  SnapshotClosed, after_snapshots-Closed, snapshot_loop-HasRun,
}

-- the run that the first transaction makes, in the database after it
abbrev pub begun_run : SyncEnv → Fields → PolymarketSyncRun
begun_run env p = new_run (snapshot_start env (snapshot_scope env.builtins p))

abbrev pub begun_db : SyncEnv → Fields → Market → Market
begun_db env p db =
    flush_market ((create_sync_run (snapshot_start env (snapshot_scope env.builtins p)) db).1)

begun-HasRun :
    (env : SyncEnv) (p : Fields) (db : Market)
    → IsSound db
    → HasRun db.runs.next (begun_run env p) (begun_db env p db)
begun-HasRun env p db h =
    flush_market-HasRun db.runs.next (begun_run env p)
      (create_sync_run (snapshot_start env (snapshot_scope env.builtins p)) db).1
      (create_sync_run-HasRun (snapshot_start env (snapshot_scope env.builtins p)) db h.runs)

-- the events of the run: those that are asked for, or those of the scope
abbrev pub chosen : SyncEnv → Descending → Fields → ℕ → List Json → Market → List String
chosen env d p limit ids db =
    event_ids d (snapshot_scope env.builtins p) limit (map (str_of env.builtins) ids)
      ((create_sync_run (snapshot_start env (snapshot_scope env.builtins p)) db).1)

module _ (env : SyncEnv) (id : ℕ) (r : PolymarketSyncRun) (fetch : FetchEvent)
    (scope granularity : String) where
  finish_empty-Closed :
      (db : Market)
      → HasRun id r db
      → SnapshotClosed env id
          (finish_empty env scope granularity id db).0
          (finish_empty env scope granularity id db).1
  unfolding finish_empty get_sync_run
  finish_empty-Closed db h =
      let d = snapshot_succeeded (env.clock 0) (no_snapshots db) in
      let u = snapshot_state (env.clock 0) (env.clock 0) (no_snapshots db) in
      rw (succeed_run-succeeds id r d (snapshot_resource scope) (some scope) u db h) (
        finished_run d r,
        succeed_run-HasRun id r d (snapshot_resource scope) (some scope) u db h,
        refl,
        refl,
        refl,
      )

  snapshot_events-Closed :
      (ids : List String) (db : Market) (time : ℕ)
      → bucket_snapshot_time (env.clock 0) granularity ≡ ok time
      → HasRun id r db
      → SnapshotClosed env id
          (snapshot_events env fetch scope granularity id ids db).0
          (snapshot_events env fetch scope granularity id ids db).1
  unfolding snapshot_events
  snapshot_events-Closed ids db time e h =
      let a : SnapshotArgs = record {
        run_id = id;
        total = length ids;
        snapshot_time = time;
        granularity = granularity;
      } in
      rw (snapshot_events, e)
        (after_snapshots-Closed env id r scope a (snapshot_loop env fetch a ids (no_snapshots db))
          refl (snapshot_loop-HasRun env id r fetch a ids (no_snapshots db) h))

  with_events-Closed :
      (ids : List String) (db : Market) (time : ℕ)
      → bucket_snapshot_time (env.clock 0) granularity ≡ ok time
      → HasRun id r db
      → SnapshotClosed env id
          (with_events env fetch scope granularity id ids db).0
          (with_events env fetch scope granularity id ids db).1
  unfolding with_events
  with_events-Closed [] db time e h = finish_empty-Closed db h
  with_events-Closed (i ∷ ids) db time e h = snapshot_events-Closed (i ∷ ids) db time e h

  with_events-refused :
      (i : String) (ids : List String) (db : Market) (e : Error)
      → bucket_snapshot_time (env.clock 0) granularity ≡ err e
      → with_events env fetch scope granularity id (i ∷ ids) db ≡ (err e, db)
  unfolding with_events snapshot_events
  with_events-refused i ids db e h = rw (with_events, snapshot_events, h) refl

-- On a database whose constraints hold, with a limit, events and a granularity that are accepted,
-- the run of a snapshot synchronisation does not stay RUNNING: it has SUCCEEDED with the counters
-- that are returned, or it has FAILED with the first 512 characters of the exception's message,
-- whichever of the calls of the client or of the progress callback raise.
pub run_snapshot_sync-Closed :
    (env : SyncEnv) (d : Descending) (fetch : FetchEvent) (p : Fields) (db : Market) (limit : ℕ)
    (ids : List Json) (time : ℕ)
    → IsSound db
    → snapshot_inputs env p ≡ ok (limit, ids)
    → bucket_snapshot_time (env.clock 0) (granularity_of env.builtins p) ≡ ok time
    → SnapshotClosed env db.runs.next
        (run_snapshot_sync env d fetch p db).0
        (run_snapshot_sync env d fetch p db).1
unfolding run_snapshot_sync snapshot_run
run_snapshot_sync-Closed env d fetch p db limit ids time h l e =
    rw (run_snapshot_sync, l)
      (with_events-Closed env db.runs.next (begun_run env p) fetch (snapshot_scope env.builtins p)
        (granularity_of env.builtins p) (chosen env d p limit ids db) (begun_db env p db) time e
        (begun-HasRun env p db h))

-- On a database whose constraints hold, with a limit and events that are accepted, at least one
-- event, and a granularity that is not accepted, a snapshot synchronisation raises, and leaves its
-- run RUNNING, with no time of its end.
pub run_snapshot_sync-stays_running :
    (env : SyncEnv) (d : Descending) (fetch : FetchEvent) (p : Fields) (db : Market) (limit : ℕ)
    (ids : List Json) (e : Error) (i : String) (is : List String)
    → IsSound db
    → snapshot_inputs env p ≡ ok (limit, ids)
    → bucket_snapshot_time (env.clock 0) (granularity_of env.builtins p) ≡ err e
    → chosen env d p limit ids db ≡ i ∷ is
    → ((run_snapshot_sync env d fetch p db).0 ≡ err e)
      × (r : PolymarketSyncRun) × (get_sync_run db.runs.next (run_snapshot_sync env d fetch p db).1
          ≡ some r)
      × (r.status ≡ "RUNNING")
      × (r.finished_at ≡ none)
unfolding get_sync_run run_snapshot_sync snapshot_run
run_snapshot_sync-stays_running env d fetch p db limit ids e i is h l b c =
    let out : run_snapshot_sync env d fetch p db ≡ (err e, begun_db env p db) =
      rw (run_snapshot_sync, l, snapshot_run, c)
        (with_events-refused env db.runs.next (begun_run env p) fetch
          (snapshot_scope env.builtins p) (granularity_of env.builtins p) i is (begun_db env p db) e
          b) in
    (
      ap (λ o. o.0) out,
      begun_run env p,
      ap (λ o. get db.runs.next o.1.runs.rows) out ∙ begun-HasRun env p db h,
      refl,
      refl,
    )
