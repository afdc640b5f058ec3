-- ===== src/Polymarket/Snapshots/Outcome.antt =====
-- polymarket_sync_service.py: the ways in which run_snapshot_sync ends.
use amsz_web.Polymarket.Store.{insert_snapshot, upsert_event, store_raw_event, put_snapshot}
use amsz_web.Polymarket.Sync.{failed_end, end_market, max_datetime}
use amsz_web.Polymarket.Values.{extract_source_updated_at, event_id, figures}
use amsz_web.Polymarket.Catalog.Keeps.{Holds, Holds-bind, store_raw_event-keeps, upsert_event-keeps}
use amsz_web.Polymarket.Catalog.Runs.{
  HasRun, flush_market-HasRun, fail_run-HasRun, put_event-HasRun, put_raw-HasRun,
  succeed_run-succeeds, succeed_run-HasRun, mark_snapshot-HasRun, put_snapshot-HasRun,
}
use amsz_web.Polymarket.Store.{get_sync_run, shortened, finished_run}
use amsz_web.Base.{ℕ, String, Option, ◌≡◌, refl, some, List, suc, none, ◌∷◌, ◌+◌, [], subst, sym}
use amsz_web.Domain.{Json, Fields}
use amsz_web.Session.{Result, ok, err}
use amsz_web.Polymarket.{Market, PolymarketSyncRun}
use amsz_web.Polymarket.Sync.{SyncEnv}
use amsz_web.Polymarket.Snapshots.{
  SnapshotResult, SnapshotEnd, snapshot_loop, SnapshotArgs, SnapshotSync, after_snapshots,
  store_snapshot, next_event, FetchEvent, counted_snapshot, snapshot_fetched, told,
  snapshot_succeeded, snapshot_state, snapshot_resource,
}

-- The run of a result: SUCCEEDED with the counters of the result, or FAILED with the message of the
-- exception.
abbrev pub SnapshotClosed : SyncEnv → ℕ → Result SnapshotResult → Market → Type 0
SnapshotClosed env id (ok c) m =
    (r : PolymarketSyncRun) × (get_sync_run id m ≡ some r)
    × (r.status ≡ "SUCCEEDED")
    × (r.page_count ≡ c.page_count)
    × (r.record_count ≡ c.record_count)
SnapshotClosed env id (err e) m =
    (r : PolymarketSyncRun) × (get_sync_run id m ≡ some r)
    × (r.status ≡ "FAILED")
    × (r.error_message ≡ shortened (some (env.message e)))

module _ (env : SyncEnv) (id : ℕ) (r : PolymarketSyncRun) where
  committed-HasRun :
      (db : Market) (x : Result (Unit {0} × Market))
      → HasRun id r db
      → Holds (λ y. HasRun id r y.1) x
      → HasRun id r ((end_market db x).1)
  committed-HasRun db (ok (u, m)) h k = flush_market-HasRun id r m k
  committed-HasRun db (err e) h k = h

  insert_snapshot-HasRun :
      (payload : Json) (time : ℕ) (g : String) (run_id : Option ℕ) (m : Market)
      → HasRun id r m
      → Holds (HasRun id r) (insert_snapshot env.builtins payload time g run_id m)
  unfolding insert_snapshot
  insert_snapshot-HasRun payload time g run_id m h =
      Holds-bind (HasRun id r) (event_id env.builtins payload) _ (λ x e.
        Holds-bind (HasRun id r) (figures env.builtins x.1) _ (λ f e'.
          mark_snapshot-HasRun id r x.0 time (put_snapshot x.0 time g f run_id m)
            (put_snapshot-HasRun id r x.0 time g f run_id m h)))

  store_snapshot-HasRun :
      (a : SnapshotArgs) (p : Fields) (at : ℕ) (m : Market)
      → HasRun id r m
      → Holds (λ y. HasRun id r y.1) (store_snapshot env.builtins a p at m)
  unfolding store_snapshot
  store_snapshot-HasRun a p at m h =
      Holds-bind (λ y. HasRun id r y.1) (upsert_event env.builtins (Json.obj p) at m) _
        (λ m1 q.
          Holds-bind (λ y. HasRun id r y.1) (store_raw_event env.builtins (Json.obj p) at m1) _
            (λ x q'.
              Holds-bind (λ y. HasRun id r y.1) _ _
                (λ m3 q''. subst (Holds (HasRun id r)) q'' (
                  insert_snapshot-HasRun (Json.obj p) a.snapshot_time a.granularity (some a.run_id)
                    x.1
                    (subst (Holds (λ y. HasRun id r y.1)) q' (
                      store_raw_event-keeps env (HasRun id r) (flush_market-HasRun id r)
                        (put_event-HasRun id r env.builtins) (put_raw-HasRun id r env.builtins)
                        (Json.obj p) at m1
                        (subst (Holds (HasRun id r)) q (
                          upsert_event-keeps env (HasRun id r) (flush_market-HasRun id r)
                            (put_event-HasRun id r env.builtins) (put_raw-HasRun id r env.builtins)
                            (Json.obj p) at m h))))))))

  told-HasRun :
      (x : Result (Unit {0})) (s : SnapshotSync) → HasRun id r s.db → HasRun id r (told x s).1.db
  told-HasRun (ok u) s h = h
  told-HasRun (err e) s h = h

  counted-HasRun :
      (a : SnapshotArgs) (p : Fields) (s : SnapshotSync) (x : Result (Unit {0}) × Market)
      → HasRun id r s.db
      → HasRun id r x.1
      → HasRun id r (counted_snapshot env a p s x).1.db
  counted-HasRun a p s (err e, db) h k = h
  counted-HasRun a p s (ok u, db) h k =
      told-HasRun
        (env.progress (suc s.page_count) (env.percent (suc s.page_count) a.total) "snapshot_sync")
        (record {
          page_count = suc s.page_count;
          record_count = suc s.record_count;
          latest_updated_at =
              max_datetime s.latest_updated_at (extract_source_updated_at env.builtins p);
          db = db;
        })
        k

  fetched-HasRun :
      (a : SnapshotArgs) (s : SnapshotSync) (x : Result Fields)
      → HasRun id r s.db
      → HasRun id r (snapshot_fetched env a s x).1.db
  fetched-HasRun a s (err e) h = h
  fetched-HasRun a s (ok p) h =
      counted-HasRun a p s
        (end_market s.db (store_snapshot env.builtins a p (env.clock (suc s.page_count)) s.db)) h
        (committed-HasRun s.db (store_snapshot env.builtins a p (env.clock (suc s.page_count)) s.db)
          h (store_snapshot-HasRun a p (env.clock (suc s.page_count)) s.db h))

  next_event-HasRun :
      (x : SnapshotEnd) (k : SnapshotSync → SnapshotEnd)
      → HasRun id r x.1.db
      → ((s : SnapshotSync) → HasRun id r s.db → HasRun id r (k s).1.db)
      → HasRun id r (next_event x k).1.db
  next_event-HasRun (some e, s) k h f = h
  next_event-HasRun (none, s) k h f = f s h

  pub snapshot_loop-HasRun :
      (fetch : FetchEvent) (a : SnapshotArgs) (ids : List String) (s : SnapshotSync)
      → HasRun id r s.db
      → HasRun id r (snapshot_loop env fetch a ids s).1.db
  unfolding snapshot_loop
  snapshot_loop-HasRun fetch a [] s h = h
  snapshot_loop-HasRun fetch a (i ∷ ids) s h =
      next_event-HasRun (snapshot_fetched env a s (fetch (suc s.page_count) i))
        (snapshot_loop env fetch a ids) (fetched-HasRun a s (fetch (suc s.page_count) i) h)
        (λ t k. snapshot_loop-HasRun fetch a ids t k)

  pub after_snapshots-Closed :
      (scope : String) (a : SnapshotArgs) (o : SnapshotEnd)
      → a.run_id ≡ id
      → HasRun id r o.1.db
      → SnapshotClosed env id (after_snapshots env scope a o).0 (after_snapshots env scope a o).1
  unfolding after_snapshots get_sync_run
  after_snapshots-Closed scope a (some e, s) same h =
      let d = failed_end env none s.page_count s.record_count (env.clock (s.page_count + 2)) e in
      let f = fail_run-HasRun id r {A = SnapshotResult} d e s.db h in
      rw same
        (subst (λ o. SnapshotClosed env id o.0 o.1) (sym f.0) (finished_run d r, f.1, refl, refl))
  after_snapshots-Closed scope a (none, s) same h =
      let at = env.clock (suc s.page_count) in
      let d = snapshot_succeeded at s in
      let u = snapshot_state at a.snapshot_time s in
      rw (same, succeed_run-succeeds id r d (snapshot_resource scope) (some scope) u s.db h)
        (
          finished_run d r,
          succeed_run-HasRun id r d (snapshot_resource scope) (some scope) u s.db h,
          refl,
          refl,
          refl,
        )
