-- ===== src/Polymarket/Catalog/Outcome.antt =====
-- polymarket_sync_service.py: every way in which run_catalog_sync ends.
use amsz_web.Polymarket.Store.{create_sync_run, new_run}
use amsz_web.Session.{Error}
use amsz_web.Polymarket.Sync.{normalize_limit, failed_end}
use amsz_web.Polymarket.Store.{get_or_create_sync_state}
use amsz_web.Polymarket.Values.{column}
use amsz_web.Polymarket.Catalog.Keeps.{loop-keeps}
use amsz_web.Polymarket.Catalog.Ends.{Stops, loop-ends}
use amsz_web.Polymarket.Catalog.Runs.{
  HasRun, fail_run-HasRun, flush_market-HasRun, create_sync_run-HasRun, succeed_run-succeeds,
  put_event-HasRun, ended, put_raw-HasRun, succeed_run-HasRun,
}
use amsz_web.Polymarket.Unique.Steps.{IsSound, get_or_create_sync_state-IsSound}
use amsz_web.Polymarket.Store.{get_sync_run, shortened, finished_run, update_sync_state}
use amsz_web.Base.{ℕ, String, Option, ◌≡◌, refl, some, suc, ◌+◌, subst, sym, arith, none}
use amsz_web.Domain.{Json, Fields}
use amsz_web.Session.{Result, ok, err}
use amsz_web.Polymarket.{Market, flush_market, PolymarketSyncRun}
use amsz_web.Polymarket.Sync.{SyncEnv}
use amsz_web.Polymarket.Catalog.{
  CatalogResult, run_catalog_sync, after_loop, begin_catalog, LoopEnd, Fetch, Sync,
  catalog_resource, succeeded_end, synced_state, catalog_scope, first_turn, run_failed,
  run_completed, run_closed, start_of,
}

-- The run of a result: SUCCEEDED with the counters of the result, or FAILED with the message of the
-- exception.
abbrev pub Closed : SyncEnv → ℕ → Result CatalogResult → Market → Type 0
Closed env id (ok c) m =
    (r : PolymarketSyncRun) × (get_sync_run id m ≡ some r)
    × (r.status ≡ "SUCCEEDED")
    × (r.page_count ≡ c.page_count)
    × (r.record_count ≡ c.record_count)
    × (r.cursor_out ≡ c.cursor_out)
Closed env id (err e) m =
    (r : PolymarketSyncRun) × (get_sync_run id m ≡ some r)
    × (r.status ≡ "FAILED")
    × (r.error_message ≡ shortened (some (env.message e)))

module _ (env : SyncEnv) (id : ℕ) (scope : String) where
  failed-Closed :
      (r : PolymarketSyncRun) (e : Error) (s : Sync) (m : Market)
      → HasRun id r m
      → Closed env id
          (run_failed {A = CatalogResult} env id e s m).0
          (run_failed {A = CatalogResult} env id e s m).1
  unfolding get_sync_run
  failed-Closed r e s m h =
      let a =
        failed_end env s.cursor_out s.page_count s.record_count (env.clock (s.page_count + 2)) e in
      let f = fail_run-HasRun id r {A = CatalogResult} a e m h in
      subst (λ o. Closed env id o.0 o.1) (sym f.0) (finished_run a r, f.1, refl, refl)

  completed-Closed :
      (r : PolymarketSyncRun) (s : Sync) (m : Market) (report : Result (Unit {0}))
      → HasRun id (finished_run (succeeded_end (env.clock (suc s.page_count)) s) r) m
      → Closed env id
          (run_completed env id scope s m report).0
          (run_completed env id scope s m report).1
  unfolding get_sync_run
  completed-Closed r s m (ok u) h =
      (finished_run (succeeded_end (env.clock (suc s.page_count)) s) r, h, refl, refl, refl, refl)
  completed-Closed r s m (err e) h = failed-Closed _ e s m h

  after_loop-Closed :
      (r : PolymarketSyncRun) (o : LoopEnd)
      → HasRun id r o.1.db
      → Closed env id (after_loop env id scope o).0 (after_loop env id scope o).1
  unfolding after_loop
  after_loop-Closed r (some e, s) h = failed-Closed r e s s.db h
  after_loop-Closed r (none, s) h =
      let at = env.clock (suc s.page_count) in
      let a = succeeded_end at s in
      let u = synced_state at s in
      subst (λ o. Closed env id (run_closed env id scope s o).0 (run_closed env id scope s o).1)
        (sym (succeed_run-succeeds id r a catalog_resource (some scope) u s.db h))
        (completed-Closed r s
          (flush_market (update_sync_state catalog_resource (some scope) u (ended id a s.db)))
          (env.progress (suc s.page_count) 100 "catalog_complete")
          (succeed_run-HasRun id r a catalog_resource (some scope) u s.db h))

begin_catalog-HasRun :
    (env : SyncEnv) (p : Fields) (db : Market)
    → IsSound db
    → (r : PolymarketSyncRun) × HasRun (begin_catalog env p db).0.1 r ((begin_catalog env p db).1)
unfolding begin_catalog create_sync_run
begin_catalog-HasRun env p db h =
    let found =
      get_or_create_sync_state catalog_resource (some (catalog_scope env.builtins p)) db in
    let sound : IsSound found.1 =
      get_or_create_sync_state-IsSound catalog_resource (some (catalog_scope env.builtins p)) db
        h in
    (
      new_run (start_of env p found.0.1),
      flush_market-HasRun found.1.runs.next (new_run (start_of env p found.0.1))
          (create_sync_run (start_of env p found.0.1) found.1).1
          (create_sync_run-HasRun (start_of env p found.0.1) found.1 sound.runs),
    )

-- On a database whose constraints hold, with a limit that is accepted and pages that end after at most
-- `n` more, a catalog synchronisation returns or raises after at most `n + 1` turns, and its run does
-- not stay RUNNING: it has SUCCEEDED with the counters and the cursor that are returned, or it has
-- FAILED with the first 512 characters of the exception's message. This holds whatever the pages have
-- in them, and whichever of the calls of the client or of the progress callback raise.
pub run_catalog_sync-Closed :
    (n : ℕ) (env : SyncEnv) (fetch : ℕ → Json → Fetch) (p : Fields) (db : Market) (limit : ℕ)
    → IsSound db
    → normalize_limit env.builtins (column "limit" p) env.polymarket_catalog_limit ≡ ok limit
    → ((c : Option String) → Stops env.builtins (fetch limit (column "closed" p) n c))
    → (o : Result CatalogResult × Market) × (run_catalog_sync (suc n) env fetch p db ≡ some o)
      × Closed env (begin_catalog env p db).0.1 o.0 o.1
unfolding run_catalog_sync
run_catalog_sync-Closed n env fetch p db limit h l k =
    let begun = begin_catalog env p db in
    let id = begun.0.1 in
    let start = begin_catalog-HasRun env p db h in
    let pages = fetch limit (column "closed" p) in
    let ends =
      loop-ends env n (suc n) pages (first_turn begun.0.0 begun.1) (omega arith) (omega arith) k in
    let kept : HasRun id start.0 ends.0.1.db =
      loop-keeps env (HasRun id start.0) (flush_market-HasRun id start.0)
        (put_event-HasRun id start.0 env.builtins) (put_raw-HasRun id start.0 env.builtins) (suc n)
        pages (first_turn begun.0.0 begun.1) ends.0 ends.1 start.1 in
    (
      after_loop env id (catalog_scope env.builtins p) ends.0,
      rw (run_catalog_sync, l, ends.1) refl,
      after_loop-Closed env id (catalog_scope env.builtins p) start.0 ends.0 kept,
    )
