-- ===== src/Polymarket/Queries.antt =====
-- polymarket_repository.py: the queries, which change nothing. Where the database puts NULL in an
-- order, and how it compares floats, is a parameter.
use amsz_web.Base.{
  ℕ, String, Bool, Option, none, some, true, false, ◌&&◌, ◌||◌, not, ltb, leb, str_eq, take, List,
  if◌then◌else◌,
}
use amsz_web.Table.{Row, query}
use amsz_web.Table.Order.{order_by}
use amsz_web.Polymarket.{Market, PolymarketEvent, PolymarketEventSnapshot}

-- `a` comes before `b` in ORDER BY column DESC
pub record Descending : Type 0 where
  pub bools : Option Bool → Option Bool → Bool
  pub floats : Option String → Option String → Bool

-- ORDER BY first, second
abbrev pub then_by {ℓ} : {A : Type ℓ} → (A → A → Bool) → (A → A → Bool) → A → A → Bool
then_by first second a b = first a b || (not (first b a) && second a b)

-- column.is_(True)
abbrev pub is_true : Option Bool → Bool
is_true (some true) = true
is_true _ = false

abbrev pub synced_desc : Row PolymarketEvent → Row PolymarketEvent → Bool
synced_desc r q = ltb q.stored.synced_at r.stored.synced_at

abbrev same_bool : Bool → Option Bool → Bool
same_bool a none = false
same_bool true (some b) = b
same_bool false (some b) = not b

-- active is None or PolymarketEvent.active == active
abbrev pub is_active_as : Option Bool → PolymarketEvent → Bool
is_active_as none e = true
is_active_as (some a) e = same_bool a e.figures.active

unfoldable pub list_events : Option Bool → ℕ → Market → List (Row PolymarketEvent)
list_events active limit m =
    take limit (order_by synced_desc (query (is_active_as active) m.events.rows))

abbrev pub is_open : PolymarketEvent → Bool
is_open e = is_true e.figures.active && not (is_true e.figures.closed)

abbrev pub is_over : PolymarketEvent → Bool
is_over e = is_true e.figures.closed || is_true e.figures.archived

module _ (d : Descending) where
  abbrev by_volume : Row PolymarketEvent → Row PolymarketEvent → Bool
  by_volume =
      then_by (λ r q. d.floats r.stored.figures.volume q.stored.figures.volume)
        (λ r q. d.floats r.stored.figures.open_interest q.stored.figures.open_interest)

  abbrev by_featured : Row PolymarketEvent → Row PolymarketEvent → Bool
  by_featured = then_by (λ r q. d.bools r.stored.featured q.stored.featured) by_volume

  unfoldable pub list_events_for_snapshot : String → ℕ → Market → List (Row PolymarketEvent)
  list_events_for_snapshot scope limit m = take limit (
      if str_eq scope "hot"
      then order_by by_featured (query is_open m.events.rows)
      else if str_eq scope "warm"
      then order_by by_volume (query is_open m.events.rows)
      else if str_eq scope "cold"
      then order_by synced_desc (query is_over m.events.rows)
      else order_by synced_desc m.events.rows)

-- if value: where(...)
abbrev since : Option ℕ → ℕ → Bool
since none t = true
since (some s) t = leb s t

abbrev until : Option ℕ → ℕ → Bool
until none t = true
until (some e) t = leb t e

abbrev with_granularity : Option String → String → Bool
with_granularity none g = true
with_granularity (some String.[]) g = true
with_granularity (some v) g = str_eq g v

abbrev pub is_between :
    String → Option String → Option ℕ → Option ℕ → PolymarketEventSnapshot → Bool
is_between id granularity start_at end_at e =
    str_eq e.polymarket_event_id id
    && with_granularity granularity e.snapshot_granularity
    && since start_at e.snapshot_time
    && until end_at e.snapshot_time

unfoldable pub list_snapshots :
    String → Option String → Option ℕ → Option ℕ → ℕ → Market → List (Row PolymarketEventSnapshot)
list_snapshots id granularity start_at end_at limit m = take limit (
    order_by (λ r q. ltb r.stored.snapshot_time q.stored.snapshot_time)
      (query (is_between id granularity start_at end_at) m.snapshots.rows))
