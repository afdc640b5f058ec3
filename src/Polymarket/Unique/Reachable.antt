-- ===== src/Polymarket/Unique/Reachable.antt =====
-- polymarket_repository.py: any sequence of its operations, on one database.
use amsz_web.Domain.{Json}
use amsz_web.Polymarket.Values.{Builtins, event_id, figures}
use amsz_web.Polymarket.Store.{
  store_raw_event, insert_snapshot, upsert_event, RunStart, create_sync_run, RunEnd,
  finish_sync_run, put_snapshot, get_or_create_sync_state, StateUpdate, update_sync_state,
}
use amsz_web.Base.{ℕ, String, Option, ◌≡◌, subst}
use amsz_web.Session.{Result, ok, ok-injective, ◌>>=◌, err}
use amsz_web.Polymarket.{Market, flush_market}
use amsz_web.Polymarket.Unique.Steps.{
  IsSound, put_raw-IsSound, put_event-IsSound, mark_snapshot-IsSound, put_snapshot-IsSound,
  create_sync_run-IsSound, finish_sync_run-IsSound, get_or_create_sync_state-IsSound,
  update_sync_state-IsSound, flush_market-IsSound,
}

-- one call of the repository, or a commit
pub data MarketStep (b : Builtins) : Market → Market → Type 0 where
  create_run : (a : RunStart) (m : Market) → MarketStep b m ((create_sync_run a m).1)
  finish_run :
      (id : ℕ) (a : RunEnd) (m m' : Market) → finish_sync_run id a m ≡ ok m' → MarketStep b m m'
  create_state :
      (resource : String) (scope : Option String) (m : Market)
      → MarketStep b m ((get_or_create_sync_state resource scope m).1)
  update_state :
      (resource : String) (scope : Option String) (a : StateUpdate) (m : Market)
      → MarketStep b m (update_sync_state resource scope a m)
  upsert :
      (payload : Json) (at : ℕ) (m m' : Market)
      → upsert_event b payload at m ≡ ok m'
      → MarketStep b m m'
  store_raw :
      (payload : Json) (at key : ℕ) (m m' : Market)
      → store_raw_event b payload at m ≡ ok (key, m')
      → MarketStep b m m'
  snapshot :
      (payload : Json) (time : ℕ) (granularity : String) (run_id : Option ℕ) (m m' : Market)
      → insert_snapshot b payload time granularity run_id m ≡ ok m'
      → MarketStep b m m'
  commit : (m : Market) → MarketStep b m (flush_market m)

pub data MarketSteps (b : Builtins) : Market → Market → Type 0 where
  stop : (m : Market) → MarketSteps b m m
  step : (m n o : Market) → MarketStep b m n → MarketSteps b n o → MarketSteps b m o

-- what a chain of results gives where it succeeds
ok-bind :
    {A B : Type 0} (P : B → Type 0) (x : Result A) (f : A → Result B) (c : B)
    → (x >>= f) ≡ ok c
    → ((a : A) → f a ≡ ok c → P c)
    → P c
ok-bind P (ok a) f c e k = k a e
ok-bind P (err x) f c e k = cc e

upsert_event-IsSound :
    (b : Builtins) (payload : Json) (at : ℕ) (m m' : Market)
    → upsert_event b payload at m ≡ ok m'
    → IsSound m
    → IsSound m'
unfolding upsert_event
upsert_event-IsSound b payload at m m' e h = ok-bind IsSound (event_id b payload) _ m' e (λ x e'.
    ok-bind IsSound (figures b x.1) _ m' e'
      (λ f e''. subst IsSound (ok-injective e'') (put_event-IsSound b x.0 x.1 f at m h)))

store_raw_event-IsSound :
    (b : Builtins) (payload : Json) (at key : ℕ) (m m' : Market)
    → store_raw_event b payload at m ≡ ok (key, m')
    → IsSound m
    → IsSound m'
unfolding store_raw_event
store_raw_event-IsSound b payload at key m m' e h =
    ok-bind (λ r. IsSound r.1) (event_id b payload) _ (key, m') e
      (λ x e'.
        subst (λ r. IsSound r.1) (ok-injective e') (put_raw-IsSound b x.0 x.1 payload at m h))

insert_snapshot-IsSound :
    (b : Builtins) (payload : Json) (time : ℕ) (granularity : String) (run_id : Option ℕ)
    (m m' : Market)
    → insert_snapshot b payload time granularity run_id m ≡ ok m'
    → IsSound m
    → IsSound m'
unfolding insert_snapshot
insert_snapshot-IsSound b payload time granularity run_id m m' e h =
    ok-bind IsSound (event_id b payload) _ m' e (λ x e'.
      ok-bind IsSound (figures b x.1) _ m' e' (λ f e''. subst IsSound (ok-injective e'') (
        mark_snapshot-IsSound x.0 time (put_snapshot x.0 time granularity f run_id m)
          (put_snapshot-IsSound x.0 time granularity f run_id m h))))

pub MarketStep-IsSound : (b : Builtins) (m n : Market) → MarketStep b m n → IsSound m → IsSound n
MarketStep-IsSound b _ _ (MarketStep.create_run a m) h = create_sync_run-IsSound a m h
MarketStep-IsSound b _ _ (MarketStep.finish_run id a m n e) h = finish_sync_run-IsSound id a m n e h
MarketStep-IsSound b _ _ (MarketStep.create_state r s m) h =
    get_or_create_sync_state-IsSound r s m h
MarketStep-IsSound b _ _ (MarketStep.update_state r s a m) h = update_sync_state-IsSound r s a m h
MarketStep-IsSound b _ _ (MarketStep.upsert p at m n e) h = upsert_event-IsSound b p at m n e h
MarketStep-IsSound b _ _ (MarketStep.store_raw p at k m n e) h =
    store_raw_event-IsSound b p at k m n e h
MarketStep-IsSound b _ _ (MarketStep.snapshot p t g r m n e) h =
    insert_snapshot-IsSound b p t g r m n e h
MarketStep-IsSound b _ _ (MarketStep.commit m) h = flush_market-IsSound m h

-- Whatever calls of the repository follow one another, an event id has one event, an event one raw
-- payload for each hash and one snapshot for each time and granularity, and a resource and scope one
-- sync state, where this was so before.
pub MarketSteps-IsSound : (b : Builtins) (m n : Market) → MarketSteps b m n → IsSound m → IsSound n
MarketSteps-IsSound b _ _ (MarketSteps.stop m) h = h
MarketSteps-IsSound b _ _ (MarketSteps.step m o n s rest) h =
    MarketSteps-IsSound b o n rest (MarketStep-IsSound b m o s h)
