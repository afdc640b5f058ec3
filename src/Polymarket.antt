-- ===== src/Polymarket.antt =====
-- The rows of the polymarket tables in app/infrastructure/datasource/relational/models.py, and the
-- session that polymarket_repository.py works on. The columns started_at, updated_at and created_at
-- are written by the database and read by no code that is modelled.
pub mod Values
pub mod Store
pub mod Unique
pub mod Sync
pub mod Catalog
pub mod Buckets
pub mod Queries
pub mod Snapshots
pub mod Client
pub mod Commands
use amsz_web.Tasks.Control.{ℤ}
use amsz_web.Base.{ℕ, String, Bool, Option, List, suc}
use amsz_web.Domain.{Json}
use amsz_web.Table.{Row, flush, add, modify}

pub record PolymarketSyncRun : Type 0 where
  pub task_id : Option ℕ
  pub source : String
  pub resource : String
  pub sync_type : String
  pub scope : Option String
  pub status : String
  pub cursor_in : Option String
  pub cursor_out : Option String
  pub page_count : ℕ
  pub record_count : ℕ
  pub error_message : Option String
  pub finished_at : Option ℕ

pub record PolymarketSyncState : Type 0 where
  pub source : String
  pub resource : String
  pub scope : Option String
  pub active_cursor : Option String
  pub last_success_at : Option ℕ
  pub last_snapshot_at : Option ℕ
  pub last_event_updated_at : Option ℕ

-- The columns that an event and a snapshot both have. A float is its text.
pub record Figures : Type 0 where
  pub active : Option Bool
  pub closed : Option Bool
  pub archived : Option Bool
  pub liquidity : Option String
  pub volume : Option String
  pub open_interest : Option String
  pub volume_24hr : Option String
  pub volume_1wk : Option String
  pub volume_1mo : Option String
  pub volume_1yr : Option String
  pub comment_count : Option ℤ
  pub source_updated_at : Option ℕ

pub record PolymarketEvent : Type 0 where
  pub polymarket_event_id : String
  pub slug : Option String
  pub title : Option String
  pub description : Option String
  pub category : Option String
  pub subcategory : Option String
  pub featured : Option Bool
  pub restricted : Option Bool
  pub enable_order_book : Option Bool
  pub neg_risk : Option Bool
  pub figures : Figures
  pub source_created_at : Option ℕ
  pub last_snapshot_at : Option ℕ
  pub synced_at : ℕ

pub record PolymarketEventSnapshot : Type 0 where
  pub polymarket_event_id : String
  pub snapshot_time : ℕ
  pub snapshot_granularity : String
  pub figures : Figures
  pub run_id : Option ℕ

pub record PolymarketEventRaw : Type 0 where
  pub polymarket_event_id : String
  pub source_updated_at : Option ℕ
  pub payload_hash : String
  pub payload_json : Json
  pub synced_at : ℕ

-- a table, with the next value of its autoincrement key
pub record Rows (A : Type 0) : Type 0 where
  pub rows : List (Row A)
  pub next : ℕ

pub record Market : Type 0 where
  pub runs : Rows PolymarketSyncRun
  pub states : Rows PolymarketSyncState
  pub events : Rows PolymarketEvent
  pub raws : Rows PolymarketEventRaw
  pub snapshots : Rows PolymarketEventSnapshot

abbrev pub flush_rows : {A : Type 0} → Rows A → Rows A
flush_rows t = record t { rows = flush t.rows }

-- session.flush() and session.commit()
abbrev pub flush_market : Market → Market
flush_market m = record {
  runs = flush_rows m.runs;
  states = flush_rows m.states;
  events = flush_rows m.events;
  raws = flush_rows m.raws;
  snapshots = flush_rows m.snapshots;
}

-- session.add(object), for a table
abbrev pub add_new : {A : Type 0} → A → Rows A → Rows A
add_new a t = record { rows = add t.next a t.rows; next = suc t.next }

-- writes to the attributes of the object with a key
abbrev pub set_row : {A : Type 0} → ℕ → (A → A) → Rows A → Rows A
set_row k f t = record t { rows = modify k f t.rows }
