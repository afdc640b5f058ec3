-- ===== src/Polymarket/Catalog/Runs.antt =====
-- polymarket_sync_service.py: the row of the sync run, through the loop and at its end.
use amsz_web.Table.{add}
use amsz_web.Domain.{Fields, Json}
use amsz_web.Polymarket.Values.{Builtins}
use amsz_web.Table.Laws.{get-flush, Below, get-modify, get-add}
use amsz_web.Polymarket.Sync.{fail_run, succeed_run}
use amsz_web.Polymarket.Store.{
  create_sync_run, put_raw, put_event, finish_sync_run, update_sync_state, RunStart, RunEnd,
  get_or_create_sync_state, finished_run, StateUpdate, new_run, is_state_of, is_event, is_raw,
  hash_of, put_snapshot, mark_snapshot, is_snapshot,
}
use amsz_web.Base.{ℕ, String, Option, ◌≡◌, refl, some, ◌∙◌, Option-cases, ==_refl, inl, inr}
use amsz_web.Session.{ok, err, Error}
use amsz_web.Table.{get, scalar}
use amsz_web.Polymarket.{Market, flush_market, PolymarketSyncRun, set_row, Figures}

abbrev pub ended : ℕ → RunEnd → Market → Market
ended id a m = record m { runs = set_row id (finished_run a) m.runs }

module _ (id : ℕ) (r : PolymarketSyncRun) where
  -- the run with the id is `r`
  abbrev pub HasRun : Market → Type 0
  HasRun m = get id m.runs.rows ≡ some r

  pub flush_market-HasRun : (m : Market) → HasRun m → HasRun (flush_market m)
  flush_market-HasRun m h = get-flush id m.runs.rows ∙ h

  pub put_event-HasRun :
      (b : Builtins) (eid : String) (p : Fields) (f : Figures) (at : ℕ) (m : Market)
      → HasRun m
      → HasRun (put_event b eid p f at m)
  unfolding put_event
  put_event-HasRun b eid p f at m h = elim (Option-cases (scalar (is_event eid) m.events.rows)) [
    | inl missing ↦ rw (put_event, missing) (get-flush id m.runs.rows ∙ h)
    | inr (q, found) ↦ rw (put_event, found) (get-flush id m.runs.rows ∙ h)
  ]

  pub put_raw-HasRun :
      (b : Builtins) (eid : String) (p : Fields) (payload : Json) (at : ℕ) (m : Market)
      → HasRun m
      → HasRun ((put_raw b eid p payload at m).1)
  unfolding put_raw
  put_raw-HasRun b eid p payload at m h =
      elim (Option-cases (scalar (is_raw eid (hash_of b payload)) m.raws.rows)) [
        | inl missing ↦ rw (put_raw, missing) (get-flush id m.runs.rows ∙ h)
        | inr (q, found) ↦ rw (put_raw, found) h
      ]

  pub put_snapshot-HasRun :
      (eid : String) (time : ℕ) (g : String) (f : Figures) (run_id : Option ℕ) (m : Market)
      → HasRun m
      → HasRun (put_snapshot eid time g f run_id m)
  unfolding put_snapshot
  put_snapshot-HasRun eid time g f run_id m h =
      elim (Option-cases (scalar (is_snapshot eid time g) m.snapshots.rows)) [
        | inl missing ↦ rw (put_snapshot, missing) (get-flush id m.runs.rows ∙ h)
        | inr (q, found) ↦ rw (put_snapshot, found) (get-flush id m.runs.rows ∙ h)
      ]

  pub mark_snapshot-HasRun :
      (eid : String) (time : ℕ) (m : Market) → HasRun m → HasRun (mark_snapshot eid time m)
  unfolding mark_snapshot
  mark_snapshot-HasRun eid time m h = elim (Option-cases (scalar (is_event eid) m.events.rows)) [
    | inl missing ↦ rw (mark_snapshot, missing) h
    | inr (q, found) ↦ rw (mark_snapshot, found) h
  ]

  pub update_sync_state-HasRun :
      (resource : String) (scope : Option String) (u : StateUpdate) (m : Market)
      → HasRun m
      → HasRun (update_sync_state resource scope u m)
  unfolding update_sync_state get_or_create_sync_state
  update_sync_state-HasRun resource scope u m h =
      elim (Option-cases (scalar (is_state_of resource scope) m.states.rows)) [
        | inl missing ↦
            rw (update_sync_state, get_or_create_sync_state, missing) (get-flush id m.runs.rows ∙ h)
        | inr (q, found) ↦ rw (update_sync_state, get_or_create_sync_state, found) h
      ]

  finish_sync_run-found :
      (a : RunEnd) (m : Market) → HasRun m → finish_sync_run id a m ≡ ok (ended id a m)
  unfolding finish_sync_run
  finish_sync_run-found a m h = rw (finish_sync_run, h) refl

  ended-run :
      (a : RunEnd) (m : Market)
      → HasRun m
      → get id (ended id a m).runs.rows ≡ some (finished_run a r)
  ended-run a m h = rw (get-modify id id (finished_run a) m.runs.rows, ==_refl id, h) refl

  -- The except branch ends the run, and raises the exception again.
  pub fail_run-HasRun {ℓ} :
      {A : Type ℓ} (a : RunEnd) (e : Error) (m : Market)
      → HasRun m
      → (fail_run {A = A} id a e m ≡ (err e, flush_market (ended id a m)))
        × (get id (flush_market (ended id a m)).runs.rows ≡ some (finished_run a r))
  unfolding fail_run
  fail_run-HasRun a e m h = (
    rw (fail_run, finish_sync_run-found a m h) refl,
    get-flush id (ended id a m).runs.rows ∙ ended-run a m h,
  )

  pub succeed_run-succeeds :
      (a : RunEnd) (resource : String) (scope : Option String) (u : StateUpdate) (m : Market)
      → HasRun m
      → succeed_run id a resource scope u m
        ≡ (ok tt, flush_market (update_sync_state resource scope u (ended id a m)))
  unfolding succeed_run
  succeed_run-succeeds a resource scope u m h = rw (succeed_run, finish_sync_run-found a m h) refl

-- The transaction of success ends the run.
pub succeed_run-HasRun :
    (id : ℕ) (r : PolymarketSyncRun) (a : RunEnd) (resource : String) (scope : Option String)
    (u : StateUpdate) (m : Market)
    → HasRun id r m
    → HasRun id
        (finished_run a r)
        (flush_market (update_sync_state resource scope u (ended id a m)))
succeed_run-HasRun id r a resource scope u m h =
    flush_market-HasRun id (finished_run a r) (update_sync_state resource scope u (ended id a m)) (
      update_sync_state-HasRun id (finished_run a r) resource scope u (ended id a m)
        (ended-run id r a m h))

-- A new run is found under the next key.
pub create_sync_run-HasRun :
    (a : RunStart) (m : Market)
    → Below m.runs.next m.runs.rows
    → HasRun m.runs.next (new_run a) ((create_sync_run a m).1)
unfolding create_sync_run
create_sync_run-HasRun a m h =
    get-flush m.runs.next (add m.runs.next (new_run a) m.runs.rows)
    ∙ get-add m.runs.next (new_run a) m.runs.rows h
