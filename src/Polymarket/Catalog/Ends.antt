-- ===== src/Polymarket/Catalog/Ends.antt =====
-- polymarket_sync_service.py: the loop of run_catalog_sync ends where the pages of the API do.
use amsz_web.Polymarket.Values.{Builtins, column}
use amsz_web.Polymarket.{Market}
use amsz_web.Polymarket.Sync.{list_of, cursor_of}
use amsz_web.Polymarket.Catalog.Keeps.{Turn-cases, after}
use amsz_web.Base.{
  [], List, ◌≤◌, true, some, ◌<◌, false, Bool-cases, none, suc, arith, ◌+◌, inl, ◌⊎◌, length, inr,
  sym, ◌==◌, ap, subst, ==_iff, zero, ◌∙◌,
}
use amsz_web.Base.{ℕ, String, Option, ◌≡◌, refl}
use amsz_web.Domain.{Json, Fields}
use amsz_web.Session.{Result, ok, err, ok-injective}
use amsz_web.Polymarket.Sync.{SyncEnv}
use amsz_web.Polymarket.Catalog.{
  turn, loop, Turn, Sync, is_last, fetched, Fetch, turned, stored_page, reported, read_page,
  LoopEnd,
}

-- a reply after which the loop does not go on: an exception, no next cursor, or no events
abbrev pub Stops : Builtins → Result Fields → Type 0
Stops b (err e) = Unit
Stops b (ok p) =
    (cursor_of b (column "next_cursor" p) ≡ none) ⊎ (list_of b (column "events" p) ≡ ok [])

module _ (env : SyncEnv) where
  continues-turned :
      (next : Option String) (events : List Json) (s t : Sync)
      → turned next events s ≡ Turn.continues t
      → (t.page_count ≡ s.page_count) × (is_last next s.cursor events ≡ false)
  continues-turned next events s t e = elim (Bool-cases (is_last next s.cursor events)) [
    | inl y ↦ cc (rw y at e)
    | inr n ↦ (sym (ap (λ x. (after x).page_count) (rw n at e)), n)
  ]

  continues-reported :
      (next : Option String) (events : List Json) (s t : Sync) (latest : Option ℕ) (db : Market)
      (r : Result (Unit {0}))
      → reported r next events (record s {
        record_count = s.record_count + length events;
        latest_updated_at = latest;
        db = db;
      })
        ≡ Turn.continues t
      → (t.page_count ≡ s.page_count) × (is_last next s.cursor events ≡ false)
  continues-reported next events s t latest db (err e) q = cc q
  continues-reported next events s t latest db (ok u) q =
      continues-turned next events
        (record s {
          record_count = s.record_count + length events;
          latest_updated_at = latest;
          db = db;
        })
        t q

  continues-stored :
      (next : Option String) (events : List Json) (s t : Sync) (x : Result (Option ℕ) × Market)
      → stored_page env next events s x ≡ Turn.continues t
      → (t.page_count ≡ s.page_count) × (is_last next s.cursor events ≡ false)
  continues-stored next events s t (err e, db) q = cc q
  continues-stored next events s t (ok latest, db) q =
      continues-reported next events s t latest db _ q

  -- What a turn after which the loop goes on has read.
  pub record Read (s t : Sync) (r : Result Fields) : Type 0 where
    pub response : Fields
    pub events : List Json
    pub fetched : r ≡ ok response
    pub listed : list_of env.builtins (column "events" response) ≡ ok events
    pub page : t.page_count ≡ suc s.page_count
    pub not_last :
        is_last (cursor_of env.builtins (column "next_cursor" response)) s.cursor events ≡ false

  continues-read_page :
      (s t : Sync) (response : Fields) (x : Result (List Json))
      → list_of env.builtins (column "events" response) ≡ x
      → read_page env s response x ≡ Turn.continues t
      → Read s t (ok response)
  continues-read_page s t response (err e) l q = cc q
  continues-read_page s t response (ok events) l q =
      let h = continues-stored _ events _ t _ q in
      record {
        response = response;
        events = events;
        fetched = refl;
        listed = l;
        page = h.0;
        not_last = h.1;
      }

  continues-fetched :
      (s t : Sync) (r : Result Fields) → fetched env s r ≡ Turn.continues t → Read s t r
  continues-fetched s t (err e) q = cc q
  continues-fetched s t (ok response) q = continues-read_page s t response _ refl q

  is_last-empty : (next cursor : Option String) → is_last next cursor [] ≡ true
  is_last-empty none cursor = refl
  is_last-empty (some v) cursor = ground arith

  Read-goes_on : (s t : Sync) (r : Result Fields) → Read s t r → ¬ Stops env.builtins r
  Read-goes_on s t (err e) h k = cc h.fetched
  Read-goes_on s t (ok p) h k =
      let same : p ≡ h.response = ok-injective h.fetched in
      let more : is_last (cursor_of env.builtins (column "next_cursor" p)) s.cursor h.events
          ≡ false =
        subst
          (λ r. is_last (cursor_of env.builtins (column "next_cursor" r)) s.cursor h.events ≡ false)
          (sym same) h.not_last in
      let listed : list_of env.builtins (column "events" p) ≡ ok h.events =
        subst (λ r. list_of env.builtins (column "events" r) ≡ ok h.events) (sym same) h.listed in
      elim k [
        | inl no_next ↦ cc (rw no_next at more)
        | inr no_events ↦
            let empty : h.events ≡ [] = ok-injective (sym listed ∙ no_events) in
            cc (
              is_last-empty (cursor_of env.builtins (column "next_cursor" p)) s.cursor,
              rw empty at more,
            )
      ]

  pub loop-ends :
      (n fuel : ℕ) (fetch : Fetch) (s : Sync)
      → s.page_count ≤ n
      → n < s.page_count + fuel
      → ((c : Option String) → Stops env.builtins (fetch n c))
      → (o : LoopEnd) × (loop fuel env fetch s ≡ some o)
  unfolding loop turn
  loop-ends n zero fetch s l h k = absurd (omega arith)
  loop-ends n (suc fuel) fetch s l h k = elim (Turn-cases (turn env fetch s)) [
    | inl (t, q) ↦ ((none, t), rw (loop, q) refl)
    | inr (inr (e, t, q)) ↦ ((some e, t), rw (loop, q) refl)
    | inr (inl (t, q)) ↦
        let read : Read s t (fetch s.page_count s.cursor) = continues-fetched s t _ q in
        let page : t.page_count ≡ suc s.page_count = read.page in
        elim (Bool-cases (s.page_count == n)) [
          | inl here ↦ absurd (
              Read-goes_on s t _ read (
                subst (λ m. Stops env.builtins (fetch m s.cursor))
                  (sym ((==_iff s.page_count n).0 here)) (k s.cursor)))
          | inr there ↦
              let before : s.page_count < n = ground (arith, there, l) in
              let rest : (o : LoopEnd) × (loop fuel env fetch t ≡ some o) =
                loop-ends n fuel fetch t (omega (arith, page, before)) (omega (arith, page, h)) k in
              (rest.0, rw (loop, q) rest.1)
        ]
  ]
