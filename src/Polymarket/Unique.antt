-- ===== src/Polymarket/Unique.antt =====
-- The unique constraints of the polymarket tables, as a property of the rows that a session sees.
pub mod Steps
pub mod Reachable
use amsz_web.Base.{refl}
use amsz_web.Table.Laws.{All-flush}
use amsz_web.Base.{
  Bool, false, ◌≡◌, List, ℕ, ◌∷◌, All, none, All-append, Bool-cases, [], All-both, ◌==◌, inl, inr,
  ◌∙◌, sym,
}
use amsz_web.Table.{add, modify, flush, scalar, query, Row}

-- `id` reads the columns of a unique constraint, which no row changes after it is made.
module _ {A K : Type 0} (id : A → K) (eq : K → K → Bool) where
  abbrev pub Stable : List (Row A) → Type 0
  Stable = All (λ r. id r.stored ≡ id r.live)

  abbrev pub Unlike : List (Row A) → Type 0
  Unlike [] = Unit
  Unlike (r ∷ rs) = All (λ q. eq (id r.live) (id q.live) ≡ false) rs × Unlike rs

  pub record OneEach (rs : List (Row A)) : Type 0 where
    pub stable : Stable rs
    pub unlike : Unlike rs

  scalar-none :
      (k : K) (rs : List (Row A))
      → scalar (λ a. eq (id a) k) rs ≡ none
      → All (λ r. eq (id r.stored) k ≡ false) rs
  scalar-none k [] e = tt
  scalar-none k (r ∷ rs) e = elim (Bool-cases (eq (id r.stored) k)) [
    | inl hit ↦ cc (rw hit at e)
    | inr miss ↦ (miss, scalar-none k rs (rw miss at e))
  ]

  Unlike-add :
      (n : ℕ) (a : A) (rs : List (Row A))
      → All (λ r. eq (id r.live) (id a) ≡ false) rs
      → Unlike rs
      → Unlike (add n a rs)
  Unlike-add n a [] new h = (tt, tt)
  Unlike-add n a (r ∷ rs) new h = (
    All-append (λ q. eq (id r.live) (id q.live) ≡ false) rs _ h.0 (new.0, tt),
    Unlike-add n a rs new.1 h.1,
  )

  -- A row that no SELECT on its columns has found is new.
  pub OneEach-add :
      (n : ℕ) (a : A) (rs : List (Row A))
      → scalar (λ c. eq (id c) (id a)) rs ≡ none
      → OneEach rs
      → OneEach (add n a rs)
  OneEach-add n a rs e h = record {
    stable = All-append (λ r. id r.stored ≡ id r.live) rs _ h.stable (refl, tt);
    unlike =
        Unlike-add n a rs
          (All-both (λ r. eq (id r.stored) (id a) ≡ false) (λ r. id r.stored ≡ id r.live)
            (λ r. eq (id r.live) (id a) ≡ false) rs (λ r f g. rw g at f) (scalar-none (id a) rs e)
            h.stable)
          h.unlike;
  }

  module _ (f : A → A) (keeps : (a : A) → id (f a) ≡ id a) where
    Stable-modify : (k : ℕ) (rs : List (Row A)) → Stable rs → Stable (modify k f rs)
    Stable-modify k [] h = tt
    Stable-modify k (r ∷ rs) h = elim (Bool-cases (r.key == k)) [
      | inl hit ↦ rw hit (h.0 ∙ sym (keeps r.live), h.1)
      | inr miss ↦ rw miss (h.0, Stable-modify k rs h.1)
    ]

    All-modify :
        (c : K) (k : ℕ) (rs : List (Row A))
        → All (λ q. eq c (id q.live) ≡ false) rs
        → All (λ q. eq c (id q.live) ≡ false) (modify k f rs)
    All-modify c k [] h = tt
    All-modify c k (r ∷ rs) h = elim (Bool-cases (r.key == k)) [
      | inl hit ↦ rw hit (rw (keeps r.live) h.0, h.1)
      | inr miss ↦ rw miss (h.0, All-modify c k rs h.1)
    ]

    Unlike-modify : (k : ℕ) (rs : List (Row A)) → Unlike rs → Unlike (modify k f rs)
    Unlike-modify k [] h = tt
    Unlike-modify k (r ∷ rs) h = elim (Bool-cases (r.key == k)) [
      | inl hit ↦ rw hit (rw (keeps r.live) h.0, h.1)
      | inr miss ↦ rw miss (All-modify (id r.live) k rs h.0, Unlike-modify k rs h.1)
    ]

    -- A write that keeps the columns of the constraint.
    pub OneEach-modify : (k : ℕ) (rs : List (Row A)) → OneEach rs → OneEach (modify k f rs)
    OneEach-modify k rs h = record {
      stable = Stable-modify k rs h.stable;
      unlike = Unlike-modify k rs h.unlike;
    }

  Unlike-flush : (rs : List (Row A)) → Unlike rs → Unlike (flush rs)
  Unlike-flush [] h = tt
  Unlike-flush (r ∷ rs) h =
      (All-flush (λ q. eq (id r.live) (id q.live) ≡ false) rs (λ q g. g) h.0, Unlike-flush rs h.1)

  pub OneEach-flush : (rs : List (Row A)) → OneEach rs → OneEach (flush rs)
  OneEach-flush rs h = record {
    stable = All-flush (λ r. id r.stored ≡ id r.live) rs (λ r g. refl) h.stable;
    unlike = Unlike-flush rs h.unlike;
  }
