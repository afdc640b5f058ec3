-- ===== src/Polymarket/Catalog/Keeps.antt =====
-- polymarket_sync_service.py: what the loop of run_catalog_sync keeps of the database, and when it
-- ends.
use amsz_web.Domain.{Json, Fields}
use amsz_web.Polymarket.Values.{event_id, figures}
use amsz_web.Session.{Error}
use amsz_web.Polymarket.Store.{upsert_event, store_raw_event}
use amsz_web.Polymarket.Sync.{end_market, SyncEnv, max_datetime}
use amsz_web.Polymarket.Store.{put_event, put_raw}
use amsz_web.Session.{◌>>=◌}
use amsz_web.Base.{[], ◌∷◌, ◌⊎◌, inl, inr, List, some, subst, Bool-cases, suc, zero, some-injective}
use amsz_web.Base.{ℕ, String, Option, ◌≡◌, refl}
use amsz_web.Session.{Result, ok, err}
use amsz_web.Polymarket.{Market, flush_market, Figures}
use amsz_web.Polymarket.Catalog.{
  turn, loop, Turn, Sync, store_events, Fetch, fetched, stored_page, read_page, turned, reported,
  LoopEnd, is_last,
}

-- what a result has, where there is one
abbrev pub Holds : {A : Type 0} → (A → Type 0) → Result A → Type 0
Holds P (ok a) = P a
Holds P (err e) = Unit

pub Holds-bind :
    {A B : Type 0} (P : B → Type 0) (x : Result A) (f : A → Result B)
    → ((a : A) → x ≡ ok a → Holds P (f a))
    → Holds P (x >>= f)
Holds-bind P (ok a) f k = k a refl
Holds-bind P (err e) f k = tt

-- the variables at the end of a turn
abbrev pub after : Turn → Sync
after (Turn.breaks s) = s
after (Turn.continues s) = s
after (Turn.raises e s) = s

pub Turn-cases :
    (x : Turn)
    → ((s : Sync) × (x ≡ Turn.breaks s))
      ⊎ (((s : Sync) × (x ≡ Turn.continues s)) ⊎ ((e : Error) × (s : Sync) × (x ≡ Turn.raises e s)))
Turn-cases (Turn.breaks s) = inl (s, refl)
Turn-cases (Turn.continues s) = inr (inl (s, refl))
Turn-cases (Turn.raises e s) = inr (inr (e, s, refl))

-- `P` is kept by the writes of a page and by a commit.
module _ (env : SyncEnv) (P : Market → Type 0) (on_flush : (m : Market) → P m → P (flush_market m))
    (on_event : (id : String) (p : Fields) (f : Figures) (at : ℕ) (m : Market)
      → P m
      → P (put_event env.builtins id p f at m))
    (on_raw : (id : String) (p : Fields) (payload : Json) (at : ℕ) (m : Market)
      → P m
      → P ((put_raw env.builtins id p payload at m).1)) where
  pub upsert_event-keeps :
      (payload : Json) (at : ℕ) (m : Market)
      → P m
      → Holds P (upsert_event env.builtins payload at m)
  unfolding upsert_event
  upsert_event-keeps payload at m h =
      Holds-bind P (event_id env.builtins payload) _
        (λ x e. Holds-bind P (figures env.builtins x.1) _ (λ f e'. on_event x.0 x.1 f at m h))

  pub store_raw_event-keeps :
      (payload : Json) (at : ℕ) (m : Market)
      → P m
      → Holds (λ r. P r.1) (store_raw_event env.builtins payload at m)
  unfolding store_raw_event
  store_raw_event-keeps payload at m h =
      Holds-bind (λ r. P r.1) (event_id env.builtins payload) _
        (λ x e. on_raw x.0 x.1 payload at m h)

  store_events-keeps :
      (events : List Json) (at : ℕ) (latest : Option ℕ) (m : Market)
      → P m
      → Holds (λ r. P r.1) (store_events env.builtins events at latest m)
  unfolding store_events
  store_events-keeps [] at latest m h = h
  store_events-keeps (e ∷ es) at latest m h =
      Holds-bind (λ r. P r.1) (upsert_event env.builtins e at m) _
        (λ m1 q.
          Holds-bind (λ r. P r.1) (store_raw_event env.builtins e at m1) _
            (λ r q'.
              Holds-bind (λ r. P r.1) _ _
                (λ u q''. store_events-keeps es at (max_datetime latest u) r.1 (
                  subst (Holds (λ r. P r.1)) q' (
                    store_raw_event-keeps e at m1
                      (subst (Holds P) q (upsert_event-keeps e at m h)))))))

  committed :
      (db : Market) (x : Result (Option ℕ × Market))
      → P db
      → Holds (λ r. P r.1) x
      → P ((end_market db x).1)
  committed db (ok (a, m)) h k = on_flush m k
  committed db (err e) h k = h

  turned-keeps :
      (next : Option String) (events : List Json) (s : Sync)
      → P s.db
      → P (after (turned next events s)).db
  turned-keeps next events s h = elim (Bool-cases (is_last next s.cursor events)) [
    | inl e ↦ rw e h
    | inr e ↦ rw e h
  ]

  reported-keeps :
      (r : Result (Unit {0})) (next : Option String) (events : List Json) (s : Sync)
      → P s.db
      → P (after (reported r next events s)).db
  reported-keeps (ok u) next events s h = turned-keeps next events s h
  reported-keeps (err e) next events s h = h

  stored_page-keeps :
      (next : Option String) (events : List Json) (s : Sync) (x : Result (Option ℕ) × Market)
      → P s.db
      → P x.1
      → P (after (stored_page env next events s x)).db
  stored_page-keeps next events s (ok latest, db) h k = reported-keeps _ next events _ k
  stored_page-keeps next events s (err e, db) h k = h

  read_page-keeps :
      (s : Sync) (response : Fields) (x : Result (List Json))
      → P s.db
      → P (after (read_page env s response x)).db
  read_page-keeps s response (err e) h = h
  read_page-keeps s response (ok events) h = stored_page-keeps _ events _ _ h (
      committed s.db _ h
        (store_events-keeps events (env.clock (suc s.page_count)) s.latest_updated_at s.db h))

  fetched-keeps : (s : Sync) (r : Result Fields) → P s.db → P (after (fetched env s r)).db
  fetched-keeps s (err e) h = h
  fetched-keeps s (ok response) h = read_page-keeps s response _ h

  turn-keeps : (fetch : Fetch) (s : Sync) → P s.db → P (after (turn env fetch s)).db
  unfolding turn
  turn-keeps fetch s h = fetched-keeps s (fetch s.page_count s.cursor) h

  -- A property of the database that writes and commits keep is kept by the loop.
  pub loop-keeps :
      (fuel : ℕ) (fetch : Fetch) (s : Sync) (o : LoopEnd)
      → loop fuel env fetch s ≡ some o
      → P s.db
      → P o.1.db
  unfolding loop
  loop-keeps zero fetch s o e h = cc e
  loop-keeps (suc fuel) fetch s o e h =
      let k : P (after (turn env fetch s)).db = turn-keeps fetch s h in
      elim (Turn-cases (turn env fetch s)) [
        | inl (t, q) ↦
            subst (λ r. P r.1.db) (some-injective (rw (loop, q) at e))
              (subst (λ x. P (after x).db) q k)
        | inr (inl (t, q)) ↦
            loop-keeps fuel fetch t o (rw (loop, q) at e) (subst (λ x. P (after x).db) q k)
        | inr (inr (x, t, q)) ↦
            subst (λ r. P r.1.db) (some-injective (rw (loop, q) at e))
              (subst (λ x. P (after x).db) q k)
      ]
