-- ===== src/Examples/Markets.antt =====
-- Polymarket pages and files of a bucket, and the theorems on them, at concrete arguments.
use amsz_web.Storage.Roundtrip.{get-put}
use amsz_web.Polymarket.Catalog.Outcome.{Closed, run_catalog_sync-Closed}
use amsz_web.Polymarket.Snapshots.Runs.{run_snapshot_sync-Closed, run_snapshot_sync-stays_running}
use amsz_web.Polymarket.Catalog.{CatalogResult, run_catalog_sync, begin_catalog}
use amsz_web.Polymarket.Unique.Reachable.{MarketSteps-IsSound, MarketSteps, MarketStep}
use amsz_web.Polymarket.Buckets.{interval, Starts, bucket_snapshot_time-Starts}
use amsz_web.Polymarket.Snapshots.{run_snapshot_sync}
use amsz_web.Polymarket.Snapshots.Outcome.{SnapshotClosed}
use amsz_web.Storage.{
  Codec, normalize_key, Files, strip_prefix, after_slashes, strip_slashes, get_json, put_json,
}
use amsz_web.Polymarket.Values.{event_id, figures}
use amsz_web.Polymarket.Store.{upsert_event, put_event, get_sync_run, get_event}
use amsz_web.Polymarket.Queries.{Descending}
use amsz_web.Polymarket.Unique.Steps.{IsSound}
use amsz_web.Base.{ℕ, zero, suc, String, Option, none, some, [], ◌∷◌, ◌≡◌, refl, inl, false}
use amsz_web.Domain.{Json, Fields, Items}
use amsz_web.Session.{Result, ok, err, Error}
use amsz_web.Polymarket.{Market, Rows, PolymarketSyncRun}
use amsz_web.Polymarket.Sync.{SyncEnv, bucket_snapshot_time, normalize_limit}
use amsz_web.Examples.Data.{plain_builtins, whole_percent}

abbrev no_rows : {A : Type 0} → Rows A
no_rows = record { rows = []; next = 1 }

abbrev empty_market : Market
empty_market = record {
  runs = no_rows;
  states = no_rows;
  events = no_rows;
  raws = no_rows;
  snapshots = no_rows;
}

empty_market-IsSound : IsSound empty_market
empty_market-IsSound = record {
  states = record { stable = tt; unlike = tt };
  events = record { stable = tt; unlike = tt };
  raws = record { stable = tt; unlike = tt };
  snapshots = record { stable = tt; unlike = tt };
  runs = tt;
}

abbrev event_fields : Fields
event_fields = Fields.field "id" (Json.num 7) (Fields.field "volume" (Json.float "1.5") Fields.end)

abbrev event_payload : Json
event_payload = Json.obj event_fields

abbrev market_or : Result Market → Market
market_or (ok m) = m
market_or (err e) = empty_market

abbrev one_event : Market
one_event = market_or (upsert_event plain_builtins event_payload 5 empty_market)

one_event_stored : upsert_event plain_builtins event_payload 5 empty_market ≡ ok one_event
unfolding upsert_event event_id figures put_event get_event
one_event_stored = refl

MarketSteps-IsSound_example :
    IsSound (market_or (upsert_event plain_builtins event_payload 5 empty_market))
MarketSteps-IsSound_example =
    MarketSteps-IsSound plain_builtins empty_market one_event
      (MarketSteps.step empty_market one_event one_event
        (MarketStep.upsert event_payload 5 empty_market one_event one_event_stored)
        (MarketSteps.stop one_event))
      empty_market-IsSound

abbrev sync_env : SyncEnv
sync_env = record {
  builtins = plain_builtins;
  polymarket_catalog_limit = 200;
  polymarket_snapshot_limit = 100;
  task_id = 3;
  clock = λ n. n;
  progress = λ n p stage. ok tt;
  message = λ e. "failed";
  percent = whole_percent;
}

-- the first page has a cursor, and the others have none
abbrev page_at : ℕ → Option String → Result Fields
page_at zero c = ok (
    Fields.field "events" (Json.arr (Items.cons event_payload Items.nil))
      (Fields.field "next_cursor" (Json.str "c2") Fields.end))
page_at (suc n) c =
    ok (Fields.field "events" (Json.arr (Items.cons event_payload Items.nil)) Fields.end)

run_catalog_sync-Closed_example :
    (o : Result CatalogResult × Market) × (run_catalog_sync 2 sync_env
        (λ limit closed. page_at)
        Fields.end
        empty_market
      ≡ some o)
    × Closed sync_env (begin_catalog sync_env Fields.end empty_market).0.1 o.0 o.1
unfolding normalize_limit
run_catalog_sync-Closed_example =
    run_catalog_sync-Closed 1 sync_env (λ limit closed. page_at) Fields.end empty_market 200
      empty_market-IsSound refl (λ c. inl refl)

bucket_snapshot_time-Starts_example :
    (l : ℕ) × (interval "15m" ≡ some l)
    × Starts l 5555555555 5400000000
    × (bucket_snapshot_time 5400000000 "15m" ≡ ok 5400000000)
unfolding bucket_snapshot_time
bucket_snapshot_time-Starts_example = bucket_snapshot_time-Starts "15m" 5555555555 5400000000 refl

abbrev by_text : Descending
by_text = record { bools = λ a b. false; floats = λ a b. false }

-- a payload that asks for one event, with a granularity
abbrev one_id : String → Fields
one_id granularity =
    Fields.field "event_ids" (Json.arr (Items.cons (Json.str "7") Items.nil))
      (Fields.field "snapshot_granularity" (Json.str granularity) Fields.end)

abbrev the_event : ℕ → String → Result Fields
the_event n id = ok event_fields

run_snapshot_sync-Closed_example :
    SnapshotClosed sync_env 1
      (run_snapshot_sync sync_env by_text the_event (one_id "1h") empty_market).0
      (run_snapshot_sync sync_env by_text the_event (one_id "1h") empty_market).1
unfolding normalize_limit bucket_snapshot_time
run_snapshot_sync-Closed_example =
    run_snapshot_sync-Closed sync_env by_text the_event (one_id "1h") empty_market 100
      (Json.str "7" ∷ []) 0 empty_market-IsSound refl refl

abbrev refused_granularity : Error
refused_granularity =
    Error.task_error false "Unsupported snapshot granularity: 2h" "POLYMARKET_INVALID_GRANULARITY"

run_snapshot_sync-stays_running_example :
    ((run_snapshot_sync sync_env by_text the_event (one_id "2h") empty_market).0
      ≡ err refused_granularity)
    × (r : PolymarketSyncRun) × (get_sync_run 1
          (run_snapshot_sync sync_env by_text the_event (one_id "2h") empty_market).1
        ≡ some r)
    × (r.status ≡ "RUNNING")
    × (r.finished_at ≡ none)
unfolding normalize_limit bucket_snapshot_time
run_snapshot_sync-stays_running_example =
    run_snapshot_sync-stays_running sync_env by_text the_event (one_id "2h") empty_market 100
      (Json.str "7" ∷ []) refused_granularity "7" [] empty_market-IsSound refl refl refl

abbrev one_codec : Codec
one_codec = record { dumps = λ v. "{}"; loads = λ t. some (Json.obj Fields.end) }

abbrev old_files : Files
old_files = ("b.json", "{}") ∷ []

get-put_example :
    (get_json "bucket" one_codec
        (put_json "bucket" one_codec "/a.json" (Json.obj Fields.end) old_files).0
        (put_json "bucket" one_codec "/a.json" (Json.obj Fields.end) old_files).1
      ≡ ok (Json.obj Fields.end))
    × (get_json "bucket" one_codec "/a.json"
          (put_json "bucket" one_codec "/a.json" (Json.obj Fields.end) old_files).1
        ≡ ok (Json.obj Fields.end))
    × (get_json "bucket" one_codec "b.json"
          (put_json "bucket" one_codec "/a.json" (Json.obj Fields.end) old_files).1
        ≡ get_json "bucket" one_codec "b.json" old_files)
unfolding normalize_key strip_prefix after_slashes strip_slashes
get-put_example =
    get-put "bucket" one_codec "/a.json" "b.json" (Json.obj Fields.end) old_files refl refl refl
