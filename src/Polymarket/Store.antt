-- ===== src/Polymarket/Store.antt =====
-- polymarket_repository.py: sync runs, sync states, events, raw events and snapshots.
use amsz_web.Table.{Row}
use amsz_web.Polymarket.Values.{
  Builtins, figures, event_id, clean_str, extract_source_updated_at, column, to_bool,
  parse_datetime, truth,
}
use amsz_web.Polymarket.{
  PolymarketEvent, Market, PolymarketSyncState, PolymarketSyncRun, PolymarketEventSnapshot,
  flush_market, set_row, Figures, PolymarketEventRaw, add_new,
}
use amsz_web.Base.{
  ℕ, String, Bool, Option, none, some, str_eq, ◌&&◌, ◌==◌, take_text, true, false, if◌then◌else◌,
}
use amsz_web.Domain.{Json, Fields}
use amsz_web.Session.{◌>>=◌, Result, ok, err, Error}
use amsz_web.Table.{get, scalar}

pub record RunStart : Type 0 where
  pub task_id : Option ℕ
  pub source : String
  pub resource : String
  pub sync_type : String
  pub scope : Option String
  pub cursor_in : Option String

abbrev pub new_run : RunStart → PolymarketSyncRun
new_run a = record {
  task_id = a.task_id;
  source = a.source;
  resource = a.resource;
  sync_type = a.sync_type;
  scope = a.scope;
  status = "RUNNING";
  cursor_in = a.cursor_in;
  cursor_out = none;
  page_count = 0;
  record_count = 0;
  error_message = none;
  finished_at = none;
}

-- The run's id is its key.
unfoldable pub create_sync_run : RunStart → Market → ℕ × Market
create_sync_run a m = (m.runs.next, flush_market (record m { runs = add_new (new_run a) m.runs }))

pub record RunEnd : Type 0 where
  pub status : String
  pub cursor_out : Option String
  pub page_count : ℕ
  pub record_count : ℕ
  pub error_message : Option String
  pub finished_at : ℕ

-- error_message[:512] if error_message else None
abbrev pub shortened : Option String → Option String
shortened none = none
shortened (some String.[]) = none
shortened (some (String.◌∷◌ c s)) = some (take_text 512 (String.◌∷◌ c s))

abbrev pub finished_run : RunEnd → PolymarketSyncRun → PolymarketSyncRun
finished_run a r = record r {
  status = a.status;
  cursor_out = a.cursor_out;
  page_count = a.page_count;
  record_count = a.record_count;
  error_message = shortened a.error_message;
  finished_at = some a.finished_at;
}

unfoldable pub finish_sync_run : ℕ → RunEnd → Market → Result Market
finish_sync_run id a m = elim (get id m.runs.rows) [
  | none ↦ err (Error.not_found "Polymarket sync run" id)
  | some r ↦ ok (record m { runs = set_row id (finished_run a) m.runs })
]

unfoldable pub get_sync_run : ℕ → Market → Option PolymarketSyncRun
get_sync_run id m = get id m.runs.rows

-- column == value, with IS NULL for None
abbrev pub same_text : Option String → Option String → Bool
same_text none none = true
same_text (some a) (some b) = str_eq a b
same_text _ _ = false

abbrev pub is_state_of : String → Option String → PolymarketSyncState → Bool
is_state_of resource scope t =
    str_eq t.source "polymarket" && str_eq t.resource resource && same_text t.scope scope

abbrev pub new_state : String → Option String → PolymarketSyncState
new_state resource scope = record {
  source = "polymarket";
  resource = resource;
  scope = scope;
  active_cursor = none;
  last_success_at = none;
  last_snapshot_at = none;
  last_event_updated_at = none;
}

-- the object, by its key and its attributes
unfoldable pub get_or_create_sync_state :
    String → Option String → Market → (ℕ × PolymarketSyncState) × Market
get_or_create_sync_state resource scope m =
    elim (scalar (is_state_of resource scope) m.states.rows) [
      | some r ↦ ((r.key, r.live), m)
      | none ↦ (
        (m.states.next, new_state resource scope),
        flush_market (record m { states = add_new (new_state resource scope) m.states }),
      )
    ]

pub record StateUpdate : Type 0 where
  pub active_cursor : Option String
  pub last_success_at : Option ℕ
  pub last_snapshot_at : Option ℕ
  pub last_event_updated_at : Option ℕ

abbrev pub updated_state : StateUpdate → PolymarketSyncState → PolymarketSyncState
updated_state a t = record t {
  active_cursor = a.active_cursor;
  last_success_at = a.last_success_at;
  last_snapshot_at = a.last_snapshot_at;
  last_event_updated_at = a.last_event_updated_at;
}

unfoldable pub update_sync_state : String → Option String → StateUpdate → Market → Market
unfolding get_or_create_sync_state
update_sync_state resource scope a m =
    let found = get_or_create_sync_state resource scope m in
    record found.1 { states = set_row found.0.0 (updated_state a) found.1.states }

abbrev pub is_event : String → PolymarketEvent → Bool
is_event id e = str_eq e.polymarket_event_id id

unfoldable pub get_event : String → Market → Option (Row PolymarketEvent)
get_event id m = scalar (is_event id) m.events.rows

abbrev pub is_raw : String → String → PolymarketEventRaw → Bool
is_raw id hash e = str_eq e.polymarket_event_id id && str_eq e.payload_hash hash

abbrev pub is_snapshot : String → ℕ → String → PolymarketEventSnapshot → Bool
is_snapshot id time granularity e =
    str_eq e.polymarket_event_id id
    && (e.snapshot_time == time)
    && str_eq e.snapshot_granularity granularity

abbrev pub written_snapshot : Figures → Option ℕ → PolymarketEventSnapshot → PolymarketEventSnapshot
written_snapshot f run_id e = record e { figures = f; run_id = run_id }

abbrev pub new_snapshot : String → ℕ → String → Figures → Option ℕ → PolymarketEventSnapshot
new_snapshot id time granularity f run_id = record {
  polymarket_event_id = id;
  snapshot_time = time;
  snapshot_granularity = granularity;
  figures = f;
  run_id = run_id;
}

unfoldable pub put_snapshot : String → ℕ → String → Figures → Option ℕ → Market → Market
put_snapshot id time granularity f run_id m =
    elim (scalar (is_snapshot id time granularity) m.snapshots.rows) [
      | none ↦
          flush_market (record m {
            snapshots = add_new (new_snapshot id time granularity f run_id) m.snapshots;
          })
      | some r ↦
          flush_market
            (record m { snapshots = set_row r.key (written_snapshot f run_id) m.snapshots })
    ]

abbrev pub snapshot_marked : ℕ → PolymarketEvent → PolymarketEvent
snapshot_marked time e = record e { last_snapshot_at = some time }

-- event.last_snapshot_at, where the event is there
unfoldable pub mark_snapshot : String → ℕ → Market → Market
unfolding get_event
mark_snapshot id time m = elim (get_event id m) [
  | none ↦ m
  | some r ↦ record m { events = set_row r.key (snapshot_marked time) m.events }
]

module _ (b : Builtins) where
  -- the assignments of upsert_event
  abbrev pub written_event : Fields → Figures → ℕ → PolymarketEvent → PolymarketEvent
  written_event p f synced_at e = record e {
    slug = clean_str b (column "slug" p);
    title = clean_str b (column "title" p);
    description = clean_str b (column "description" p);
    category = clean_str b (column "category" p);
    subcategory = clean_str b (column "subcategory" p);
    featured = to_bool b (column "featured" p);
    restricted = to_bool b (column "restricted" p);
    enable_order_book = to_bool b (column "enableOrderBook" p);
    neg_risk = to_bool b (column "negRisk" p);
    figures = f;
    source_created_at =
        parse_datetime b (
          if truth b (column "createdAt" p) then column "createdAt" p else column "creationDate" p);
    synced_at = synced_at;
  }

  -- PolymarketEvent(polymarket_event_id=event_id), with the assignments
  abbrev pub new_event : String → Fields → Figures → ℕ → PolymarketEvent
  new_event id p f synced_at = written_event p f synced_at (record {
    polymarket_event_id = id;
    slug = none;
    title = none;
    description = none;
    category = none;
    subcategory = none;
    featured = none;
    restricted = none;
    enable_order_book = none;
    neg_risk = none;
    figures = f;
    source_created_at = none;
    last_snapshot_at = none;
    synced_at = synced_at;
  })

  unfoldable pub put_event : String → Fields → Figures → ℕ → Market → Market
  unfolding get_event
  put_event id p f synced_at m = elim (get_event id m) [
    | none ↦ flush_market (record m { events = add_new (new_event id p f synced_at) m.events })
    | some r ↦
        flush_market (record m { events = set_row r.key (written_event p f synced_at) m.events })
  ]

  unfoldable pub upsert_event : Json → ℕ → Market → Result Market
  unfolding event_id figures
  upsert_event payload synced_at m = do
    (id, p) ← event_id b payload
    f ← figures b p
    ok (put_event id p f synced_at m)

  abbrev pub hash_of : Json → String
  hash_of payload = b.sha256 (b.dumps payload)

  abbrev pub new_raw : String → Fields → Json → ℕ → PolymarketEventRaw
  new_raw id p payload synced_at = record {
    polymarket_event_id = id;
    source_updated_at = extract_source_updated_at b p;
    payload_hash = hash_of payload;
    payload_json = payload;
    synced_at = synced_at;
  }

  -- the key of the row that is there or new
  unfoldable pub put_raw : String → Fields → Json → ℕ → Market → ℕ × Market
  put_raw id p payload synced_at m = elim (scalar (is_raw id (hash_of payload)) m.raws.rows) [
    | some r ↦ (r.key, m)
    | none ↦ (
      m.raws.next,
      flush_market (record m { raws = add_new (new_raw id p payload synced_at) m.raws }),
    )
  ]

  unfoldable pub store_raw_event : Json → ℕ → Market → Result (ℕ × Market)
  store_raw_event payload synced_at m = do
    (id, p) ← event_id b payload
    ok (put_raw id p payload synced_at m)

  unfoldable pub insert_snapshot : Json → ℕ → String → Option ℕ → Market → Result Market
  unfolding figures event_id
  insert_snapshot payload time granularity run_id m = do
    (id, p) ← event_id b payload
    f ← figures b p
    ok (mark_snapshot id time (put_snapshot id time granularity f run_id m))
