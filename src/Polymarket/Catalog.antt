-- ===== src/Polymarket/Catalog.antt =====
-- polymarket_sync_service.py: run_catalog_sync, which reads pages of events until the API has no more.

use amsz_web.Services.Fanout.{get_field}
use amsz_web.Polymarket.Values.{Builtins, str_of, extract_source_updated_at, column, truth}
use amsz_web.Polymarket.Store.{
  RunEnd, get_or_create_sync_state, RunStart, StateUpdate, create_sync_run, upsert_event,
  store_raw_event,
}
use mathlib.Core.Option
pub mod Keeps
pub mod Ends
pub mod Runs
pub mod Outcome
use amsz_web.Base.{[], ◌∷◌, ◌+◌, if◌then◌else◌, true, some_eq, false, length, or_else}
use amsz_web.Polymarket.Sync.{
  SyncEnv, cursor_of, list_of, normalize_limit, fail_run, end_market, succeed_run, failed_end,
  max_datetime,
}
use amsz_web.Base.{ℕ, zero, suc, String, Bool, Option, none, some, List, ◌||◌, ◌*◌, min}
use amsz_web.Domain.{Json, Fields}
use amsz_web.Session.{◌>>=◌, Result, ok, err, Error}
use amsz_web.Polymarket.{Market, flush_market, PolymarketSyncState}

-- `fetch n cursor` is the reply of the n-th call of list_events_keyset, with the limit and the filter of
-- the call already given, or its exception.
abbrev pub Fetch : Type 0
Fetch = ℕ → Option String → Result Fields

-- the variables of the loop, and the database
pub record Sync : Type 0 where
  pub cursor : Option String
  pub cursor_out : Option String
  pub page_count : ℕ
  pub record_count : ℕ
  pub latest_updated_at : Option ℕ
  pub db : Market

-- how one turn of the loop ends: break, the next turn, or an exception
pub data Turn : Type 0 where
  breaks continues : Sync → Turn
  raises : Error → Sync → Turn

-- the source's time of a payload's last change
abbrev pub updated_at : Builtins → Json → Result (Option ℕ)
updated_at b (Json.obj p) = ok (extract_source_updated_at b p)
updated_at b _ = err (Error.raised "AttributeError" "the payload has no get")

-- for event_payload in events
unfoldable pub store_events :
    Builtins → List Json → ℕ → Option ℕ → Market → Result (Option ℕ × Market)
store_events b [] at latest m = ok (latest, m)
store_events b (e ∷ es) at latest m = do
  m1 ← upsert_event b e at m
  (key, m2) ← store_raw_event b e at m1
  u ← updated_at b e
  store_events b es at (max_datetime latest u) m2

abbrev pub no_events : List Json → Bool
no_events [] = true
no_events (x ∷ xs) = false

-- not next_cursor or next_cursor == cursor or not events
abbrev pub is_last : Option String → Option String → List Json → Bool
is_last none cursor events = true
is_last (some next) cursor events = some_eq cursor next || no_events events

-- next_cursor or cursor
abbrev pub or_cursor : Option String → Option String → Option String
or_cursor none cursor = cursor
or_cursor (some next) cursor = some next

-- the end of a turn, after the page is stored
abbrev pub turned : Option String → List Json → Sync → Turn
turned next events s =
    if is_last next s.cursor events
    then Turn.breaks (record s { cursor_out = or_cursor next s.cursor })
    else Turn.continues (record s { cursor = next; cursor_out = next })

abbrev pub reported : Result (Unit {0}) → Option String → List Json → Sync → Turn
reported (ok u) next events s = turned next events s
reported (err e) next events s = Turn.raises e s

-- record_count and the progress, where the page's transaction is committed
abbrev pub stored_page :
    SyncEnv → Option String → List Json → Sync → Result (Option ℕ) × Market → Turn
stored_page env next events s (ok latest, db) =
    reported (env.progress s.page_count (min 95 (s.page_count * 10)) "catalog_sync") next events
      (record s {
        record_count = s.record_count + length events;
        latest_updated_at = latest;
        db = db;
      })
stored_page env next events s (err e, db) = Turn.raises e s

abbrev pub paged : SyncEnv → Option String → List Json → Sync → Turn
paged env next events s = stored_page env next events s (
    end_market s.db
      (store_events env.builtins events (env.clock s.page_count) s.latest_updated_at s.db))

abbrev pub read_page : SyncEnv → Sync → Fields → Result (List Json) → Turn
read_page env s response (err e) = Turn.raises e s
read_page env s response (ok events) =
    paged env (cursor_of env.builtins (column "next_cursor" response)) events
      (record s { page_count = suc s.page_count })

abbrev pub fetched : SyncEnv → Sync → Result Fields → Turn
fetched env s (err e) = Turn.raises e s
fetched env s (ok response) =
    read_page env s response (list_of env.builtins (column "events" response))

unfoldable pub turn : SyncEnv → Fetch → Sync → Turn
unfolding store_events
turn env fetch s = fetched env s (fetch s.page_count s.cursor)

-- how the loop ends: with the variables, and the exception if there was one
abbrev pub LoopEnd : Type 0
LoopEnd = Option Error × Sync

-- while True: `fuel` bounds the turns, and `none` says that they were not enough
unfoldable pub loop : ℕ → SyncEnv → Fetch → Sync → Option LoopEnd
unfolding turn
loop zero env fetch s = none
loop (suc fuel) env fetch s = elim (turn env fetch s) [
  | Turn.breaks t ↦ some (none, t)
  | Turn.continues t ↦ loop fuel env fetch t
  | Turn.raises e t ↦ some (some e, t)
]

abbrev pub catalog_resource : String
catalog_resource = "events.catalog"

-- the dict that the handler returns
pub record CatalogResult : Type 0 where
  pub scope : String
  pub page_count : ℕ
  pub record_count : ℕ
  pub cursor_out : Option String

abbrev pub succeeded_end : ℕ → Sync → RunEnd
succeeded_end at s = record {
  status = "SUCCEEDED";
  cursor_out = s.cursor_out;
  page_count = s.page_count;
  record_count = s.record_count;
  error_message = none;
  finished_at = at;
}

abbrev pub synced_state : ℕ → Sync → StateUpdate
synced_state at s = record {
  active_cursor = s.cursor_out;
  last_success_at = some at;
  last_snapshot_at = none;
  last_event_updated_at = s.latest_updated_at;
}

-- the except branch, whose utc_now() is the second reading after the last page
abbrev pub run_failed {ℓ} : {A : Type ℓ} → SyncEnv → ℕ → Error → Sync → Market → Result A × Market
run_failed env run_id e s db =
    fail_run run_id
      (failed_end env s.cursor_out s.page_count s.record_count (env.clock (s.page_count + 2)) e) e
      db

abbrev pub run_completed :
    SyncEnv → ℕ → String → Sync → Market → Result (Unit {0}) → Result CatalogResult × Market
run_completed env run_id scope s db (err e) = run_failed env run_id e s db
run_completed env run_id scope s db (ok u) = (
  ok (record {
    scope = scope;
    page_count = s.page_count;
    record_count = s.record_count;
    cursor_out = s.cursor_out;
  }),
  db,
)

abbrev pub run_closed :
    SyncEnv → ℕ → String → Sync → Result (Unit {0}) × Market → Result CatalogResult × Market
run_closed env run_id scope s (err e, db) = run_failed env run_id e s db
run_closed env run_id scope s (ok u, db) =
    run_completed env run_id scope s db (env.progress (suc s.page_count) 100 "catalog_complete")

-- what follows the loop
unfoldable pub after_loop : SyncEnv → ℕ → String → LoopEnd → Result CatalogResult × Market
unfolding succeed_run fail_run
after_loop env run_id scope (some e, s) = run_failed env run_id e s s.db
after_loop env run_id scope (none, s) = run_closed env run_id scope s (
    succeed_run run_id (succeeded_end (env.clock (suc s.page_count)) s) catalog_resource
      (some scope) (synced_state (env.clock (suc s.page_count)) s) s.db)

abbrev pub or_active : Option String → Bool → Option String → Option String
or_active (some c) reset active = some c
or_active none reset active = if reset then none else active

abbrev pub catalog_start : SyncEnv → String → Option String → RunStart
catalog_start env scope cursor_in = record {
  task_id = some env.task_id;
  source = "polymarket";
  resource = catalog_resource;
  sync_type = "catalog";
  scope = some scope;
  cursor_in = cursor_in;
}

abbrev pub catalog_scope : Builtins → Fields → String
catalog_scope b p = str_of b (or_else (get_field "scope" p) (Json.str "default"))

-- payload.get("after_cursor") or (None if reset_cursor else state.active_cursor)
abbrev pub start_cursor : Builtins → Fields → PolymarketSyncState → Option String
start_cursor b p state =
    or_active (cursor_of b (column "after_cursor" p))
      (truth b (or_else (get_field "reset_cursor" p) (Json.bool false))) state.active_cursor

abbrev pub start_of : SyncEnv → Fields → PolymarketSyncState → RunStart
start_of env p state =
    catalog_start env (catalog_scope env.builtins p) (start_cursor env.builtins p state)

-- the first transaction: the cursor and the id of the run
unfoldable pub begin_catalog : SyncEnv → Fields → Market → (Option String × ℕ) × Market
unfolding get_or_create_sync_state create_sync_run
begin_catalog env p db =
    let found =
      get_or_create_sync_state catalog_resource (some (catalog_scope env.builtins p)) db in
    let made = create_sync_run (start_of env p found.0.1) found.1 in
    ((start_cursor env.builtins p found.0.1, made.0), flush_market made.1)

abbrev pub first_turn : Option String → Market → Sync
first_turn cursor db = record {
  cursor = cursor;
  cursor_out = cursor;
  page_count = 0;
  record_count = 0;
  latest_updated_at = none;
  db = db;
}

-- `fetch limit closed` is the client with a limit and the filter on closed events
unfoldable pub run_catalog_sync :
    ℕ → SyncEnv → (ℕ → Json → Fetch) → Fields → Market → Option (Result CatalogResult × Market)
unfolding begin_catalog loop after_loop normalize_limit
run_catalog_sync fuel env fetch p db =
    elim (normalize_limit env.builtins (column "limit" p) env.polymarket_catalog_limit) [
      | err e ↦ some (err e, db)
      | ok limit ↦
          let begun = begin_catalog env p db in
          Option.map (after_loop env begun.0.1 (catalog_scope env.builtins p))
            (loop fuel env (fetch limit (column "closed" p)) (first_turn begun.0.0 begun.1))
    ]
