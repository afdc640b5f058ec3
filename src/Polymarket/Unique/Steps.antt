-- ===== src/Polymarket/Unique/Steps.antt =====
-- polymarket_repository.py: what every operation keeps.
use amsz_web.Table.{scalar}
use amsz_web.Base.{refl}
use amsz_web.Domain.{Fields, Json}
use amsz_web.Session.{ok, ok-injective}
use amsz_web.Polymarket.Values.{Builtins}
use amsz_web.Polymarket.Store.{
  update_sync_state, finish_sync_run, get_or_create_sync_state, create_sync_run, put_event,
  StateUpdate, RunStart, RunEnd, same_text, updated_state, is_state_of, new_run, is_event,
  new_state, written_event, new_event, finished_run, put_snapshot, put_raw, mark_snapshot,
  snapshot_marked, is_snapshot, written_snapshot, is_raw, hash_of, new_snapshot, new_raw,
}
use amsz_web.Base.{
  ℕ, String, Bool, Option, ◌≡◌, ◌&&◌, str_eq, ◌==◌, Option-cases, inr, All-append, inl, ◌<◌, subst,
  suc, All-map, arith,
}
use amsz_web.Table.{get}
use amsz_web.Table.Laws.{Below, Below-flush, Below-modify}
use amsz_web.Polymarket.{
  Market, flush_market, PolymarketEventRaw, PolymarketEvent, PolymarketEventSnapshot,
  PolymarketSyncState, add_new, Figures, set_row,
}
use amsz_web.Polymarket.Unique.{OneEach, OneEach-add, OneEach-modify, OneEach-flush}

-- the columns of the unique constraints, and their comparisons
abbrev state_key : PolymarketSyncState → String × (String × Option String)
state_key t = (t.source, (t.resource, t.scope))

abbrev same_state : String × (String × Option String) → String × (String × Option String) → Bool
same_state x y = str_eq x.0 y.0 && str_eq x.1.0 y.1.0 && same_text x.1.1 y.1.1

abbrev event_key : PolymarketEvent → String
event_key e = e.polymarket_event_id

abbrev raw_key : PolymarketEventRaw → String × String
raw_key e = (e.polymarket_event_id, e.payload_hash)

abbrev same_raw : String × String → String × String → Bool
same_raw x y = str_eq x.0 y.0 && str_eq x.1 y.1

abbrev snapshot_key : PolymarketEventSnapshot → String × (ℕ × String)
snapshot_key e = (e.polymarket_event_id, (e.snapshot_time, e.snapshot_granularity))

abbrev same_snapshot : String × (ℕ × String) → String × (ℕ × String) → Bool
same_snapshot x y = str_eq x.0 y.0 && (x.1.0 == y.1.0) && str_eq x.1.1 y.1.1

-- the unique constraints hold, and the keys of runs are below the next one
pub record IsSound (m : Market) : Type 0 where
  pub states : OneEach state_key same_state m.states.rows
  pub events : OneEach event_key str_eq m.events.rows
  pub raws : OneEach raw_key same_raw m.raws.rows
  pub snapshots : OneEach snapshot_key same_snapshot m.snapshots.rows
  pub runs : Below m.runs.next m.runs.rows

pub flush_market-IsSound : (m : Market) → IsSound m → IsSound (flush_market m)
flush_market-IsSound m h = record {
  states = OneEach-flush state_key same_state m.states.rows h.states;
  events = OneEach-flush event_key str_eq m.events.rows h.events;
  raws = OneEach-flush raw_key same_raw m.raws.rows h.raws;
  snapshots = OneEach-flush snapshot_key same_snapshot m.snapshots.rows h.snapshots;
  runs = Below-flush m.runs.next m.runs.rows h.runs;
}

pub create_sync_run-IsSound :
    (a : RunStart) (m : Market) → IsSound m → IsSound ((create_sync_run a m).1)
unfolding create_sync_run
create_sync_run-IsSound a m h =
    flush_market-IsSound (record m { runs = add_new (new_run a) m.runs })
      (record {
        states = h.states;
        events = h.events;
        raws = h.raws;
        snapshots = h.snapshots;
        runs =
            All-append (λ r. r.key < suc m.runs.next) m.runs.rows _
              (All-map (λ r. r.key < m.runs.next) (λ r. r.key < suc m.runs.next) m.runs.rows
                (λ r p. omega arith) h.runs)
              (omega arith, tt);
      })

pub finish_sync_run-IsSound :
    (id : ℕ) (a : RunEnd) (m m' : Market) → finish_sync_run id a m ≡ ok m' → IsSound m → IsSound m'
unfolding finish_sync_run
finish_sync_run-IsSound id a m m' e h = elim (Option-cases (get id m.runs.rows)) [
  | inl missing ↦ cc (rw (finish_sync_run, missing) at e)
  | inr (r, found) ↦ subst IsSound (ok-injective (rw (finish_sync_run, found) at e)) (record {
    states = h.states;
    events = h.events;
    raws = h.raws;
    snapshots = h.snapshots;
    runs = Below-modify m.runs.next id (finished_run a) m.runs.rows h.runs;
  })
]

pub get_or_create_sync_state-IsSound :
    (resource : String) (scope : Option String) (m : Market)
    → IsSound m
    → IsSound ((get_or_create_sync_state resource scope m).1)
unfolding get_or_create_sync_state
get_or_create_sync_state-IsSound resource scope m h =
    elim (Option-cases (scalar (is_state_of resource scope) m.states.rows)) [
      | inr (r, found) ↦ rw (get_or_create_sync_state, found) h
      | inl missing ↦
          rw (get_or_create_sync_state, missing)
            (flush_market-IsSound
              (record m { states = add_new (new_state resource scope) m.states })
              (record {
                states =
                    OneEach-add state_key same_state m.states.next (new_state resource scope)
                      m.states.rows missing h.states;
                events = h.events;
                raws = h.raws;
                snapshots = h.snapshots;
                runs = h.runs;
              }))
    ]

pub update_sync_state-IsSound :
    (resource : String) (scope : Option String) (a : StateUpdate) (m : Market)
    → IsSound m
    → IsSound (update_sync_state resource scope a m)
unfolding update_sync_state
update_sync_state-IsSound resource scope a m h =
    let found = get_or_create_sync_state resource scope m in
    let g : IsSound found.1 = get_or_create_sync_state-IsSound resource scope m h in
    record {
      states =
          OneEach-modify state_key same_state (updated_state a) (λ t. refl) found.0.0
            found.1.states.rows g.states;
      events = g.events;
      raws = g.raws;
      snapshots = g.snapshots;
      runs = g.runs;
    }

module _ (b : Builtins) where
  pub put_event-IsSound :
      (id : String) (p : Fields) (f : Figures) (at : ℕ) (m : Market)
      → IsSound m
      → IsSound (put_event b id p f at m)
  unfolding put_event
  put_event-IsSound id p f at m h = elim (Option-cases (scalar (is_event id) m.events.rows)) [
    | inr (r, found) ↦
        rw (put_event, found)
          (flush_market-IsSound
            (record m { events = set_row r.key (written_event b p f at) m.events })
            (record {
              states = h.states;
              events =
                  OneEach-modify event_key str_eq (written_event b p f at) (λ e. refl) r.key
                    m.events.rows h.events;
              raws = h.raws;
              snapshots = h.snapshots;
              runs = h.runs;
            }))
    | inl missing ↦
        rw (put_event, missing)
          (flush_market-IsSound (record m { events = add_new (new_event b id p f at) m.events })
            (record {
              states = h.states;
              events =
                  OneEach-add event_key str_eq m.events.next (new_event b id p f at) m.events.rows
                    missing h.events;
              raws = h.raws;
              snapshots = h.snapshots;
              runs = h.runs;
            }))
  ]

  pub put_raw-IsSound :
      (id : String) (p : Fields) (payload : Json) (at : ℕ) (m : Market)
      → IsSound m
      → IsSound ((put_raw b id p payload at m).1)
  unfolding put_raw
  put_raw-IsSound id p payload at m h =
      elim (Option-cases (scalar (is_raw id (hash_of b payload)) m.raws.rows)) [
        | inr (r, found) ↦ rw (put_raw, found) h
        | inl missing ↦
            rw (put_raw, missing)
              (flush_market-IsSound (record m { raws = add_new (new_raw b id p payload at) m.raws })
                (record {
                  states = h.states;
                  events = h.events;
                  raws =
                      OneEach-add raw_key same_raw m.raws.next (new_raw b id p payload at)
                        m.raws.rows missing h.raws;
                  snapshots = h.snapshots;
                  runs = h.runs;
                }))
      ]

pub put_snapshot-IsSound :
    (id : String) (time : ℕ) (granularity : String) (f : Figures) (run_id : Option ℕ) (m : Market)
    → IsSound m
    → IsSound (put_snapshot id time granularity f run_id m)
unfolding put_snapshot
put_snapshot-IsSound id time granularity f run_id m h =
    elim (Option-cases (scalar (is_snapshot id time granularity) m.snapshots.rows)) [
      | inr (r, found) ↦
          rw (put_snapshot, found)
            (flush_market-IsSound
              (record m { snapshots = set_row r.key (written_snapshot f run_id) m.snapshots })
              (record {
                states = h.states;
                events = h.events;
                raws = h.raws;
                snapshots =
                    OneEach-modify snapshot_key same_snapshot (written_snapshot f run_id)
                      (λ e. refl) r.key m.snapshots.rows h.snapshots;
                runs = h.runs;
              }))
      | inl missing ↦
          rw (put_snapshot, missing)
            (flush_market-IsSound
              (record m {
                snapshots = add_new (new_snapshot id time granularity f run_id) m.snapshots;
              })
              (record {
                states = h.states;
                events = h.events;
                raws = h.raws;
                snapshots =
                    OneEach-add snapshot_key same_snapshot m.snapshots.next
                      (new_snapshot id time granularity f run_id) m.snapshots.rows missing
                      h.snapshots;
                runs = h.runs;
              }))
    ]

pub mark_snapshot-IsSound :
    (id : String) (time : ℕ) (m : Market) → IsSound m → IsSound (mark_snapshot id time m)
unfolding mark_snapshot
mark_snapshot-IsSound id time m h = elim (Option-cases (scalar (is_event id) m.events.rows)) [
  | inl missing ↦ rw (mark_snapshot, missing) h
  | inr (r, found) ↦
      rw (mark_snapshot, found)
        (record {
          states = h.states;
          events =
              OneEach-modify event_key str_eq (snapshot_marked time) (λ e. refl) r.key m.events.rows
                h.events;
          raws = h.raws;
          snapshots = h.snapshots;
          runs = h.runs;
        })
]
