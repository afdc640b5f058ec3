-- ===== src/Table/Laws.antt =====
-- The laws of the table that the repositories use.
use mathlib.Core.Option
use amsz_web.Base.{
  ==_refl, All, All-map, All-both, All-append, ◌<◌, suc, ◌++◌, false, ℕ, none, some, List, [], ◌∷◌,
  ◌≡◌, refl, arith, ◌==◌, if◌then◌else◌, inl, inr, Bool-cases, ==_iff, ap, sym, ◌∙◌,
}
use amsz_web.Table.{without, flushed, Row, get, modify, flush, insert, IsClean, keys, add}

module _ {ℓ} {A : Type ℓ} where
  pub get-modify :
      (k j : ℕ) (f : A → A) (rs : List (Row A))
      → get j (modify k f rs) ≡ (if k == j then Option.map f (get j rs) else get j rs)
  get-modify k j f [] = ground arith
  get-modify k j f (r ∷ rs) = ground (arith, get-modify k j f rs)

  pub get-flush : (k : ℕ) (rs : List (Row A)) → get k (flush rs) ≡ get k rs
  get-flush k [] = refl
  get-flush k (r ∷ rs) = ground (arith, get-flush k rs)

  pub get-insert :
      (k j : ℕ) (a : A) (rs : List (Row A))
      → get j (insert k a rs)
        ≡ elim (get j rs) [ some b ↦ some b | none ↦ if k == j then some a else none ]
  get-insert k j a [] = refl
  get-insert k j a (r ∷ rs) = ground (arith, get-insert k j a rs)

  pub keys-modify : (k : ℕ) (f : A → A) (rs : List (Row A)) → keys (modify k f rs) ≡ keys rs
  keys-modify k f [] = refl
  keys-modify k f (r ∷ rs) = ground (arith, keys-modify k f rs)

  pub keys-flush : (rs : List (Row A)) → keys (flush rs) ≡ keys rs
  keys-flush [] = refl
  keys-flush (r ∷ rs) = ap (◌∷◌ r.key) (keys-flush rs)

  pub without-modify :
      (k : ℕ) (f : A → A) (rs : List (Row A)) → without k (modify k f rs) ≡ without k rs
  without-modify k f [] = refl
  without-modify k f (r ∷ rs) = ground (arith, without-modify k f rs)

  pub get-modify_self :
      (k : ℕ) (f : A → A) (rs : List (Row A)) (a : A)
      → get k rs ≡ some a
      → get k (modify k f rs) ≡ some (f a)
  get-modify_self k f rs a g = rw (get-modify k k f rs, g, ==_refl k) refl

  module _ {κ} (Q : Row A → Type κ) where
    -- A write keeps a property of every row, where it keeps it at the row that it changes.
    pub All-modify :
        (k : ℕ) (f : A → A) (rs : List (Row A))
        → ((r : Row A)
            → r.key ≡ k
            → get k rs ≡ some r.live
            → Q r
            → Q (record r { live = f r.live }))
        → All Q rs
        → All Q (modify k f rs)
    All-modify k f [] step h = tt
    All-modify k f (r ∷ rs) step h = elim (Bool-cases (r.key == k)) [
      | inl hit ↦ rw hit (step r ((==_iff r.key k).0 hit) (rw hit) h.0, h.1)
      | inr miss ↦ rw miss (h.0, All-modify k f rs (λ q e g. step q e (rw miss g)) h.1)
    ]

    pub All-flush :
        (rs : List (Row A)) → ((r : Row A) → Q r → Q (flushed r)) → All Q rs → All Q (flush rs)
    All-flush [] step h = tt
    All-flush (r ∷ rs) step h = (step r h.0, All-flush rs step h.1)

    pub All-get :
        (k : ℕ) (rs : List (Row A)) (a : A)
        → All Q rs
        → get k rs ≡ some a
        → (r : Row A) × (r.key ≡ k) × (r.live ≡ a) × Q r
    All-get k [] a h e = cc
    All-get k (r ∷ rs) a h e = elim (Bool-cases (r.key == k)) [
      | inl hit ↦ (r, (==_iff r.key k).0 hit, ground arith, h.0)
      | inr miss ↦ All-get k rs a h.1 (ground arith)
    ]

  -- no two rows have one key
  abbrev pub Distinct : List (Row A) → Type 0
  Distinct [] = Unit
  Distinct (r ∷ rs) = All (λ q. (r.key == q.key) ≡ false) rs × Distinct rs

  -- every key is below `n`
  abbrev pub Below : ℕ → List (Row A) → Type 0
  Below n = All (λ r. r.key < n)

  pub Below-modify :
      (n k : ℕ) (f : A → A) (rs : List (Row A)) → Below n rs → Below n (modify k f rs)
  Below-modify n k f rs = All-modify (λ r. r.key < n) k f rs (λ r _ _ h. h)

  pub Distinct-modify :
      (k : ℕ) (f : A → A) (rs : List (Row A)) → Distinct rs → Distinct (modify k f rs)
  Distinct-modify k f [] h = tt
  Distinct-modify k f (r ∷ rs) h = elim (Bool-cases (r.key == k)) [
    | inl hit ↦ rw hit h
    | inr miss ↦ rw miss (
      All-modify (λ q. (r.key == q.key) ≡ false) k f rs (λ q _ _ e. e) h.0,
      Distinct-modify k f rs h.1,
    )
  ]

  pub Below-flush : (n : ℕ) (rs : List (Row A)) → Below n rs → Below n (flush rs)
  Below-flush n rs = All-flush (λ r. r.key < n) rs (λ r h. h)

  pub Distinct-flush : (rs : List (Row A)) → Distinct rs → Distinct (flush rs)
  Distinct-flush [] h = tt
  Distinct-flush (r ∷ rs) h =
      (All-flush (λ q. (r.key == q.key) ≡ false) rs (λ q e. e) h.0, Distinct-flush rs h.1)

  pub Below-insert :
      (n : ℕ) (a : A) (rs : List (Row A)) → Below n rs → Below (suc n) (insert n a rs)
  Below-insert n a rs h =
      All-append (λ r. r.key < suc n) (flush rs) _
        (All-map (λ r. r.key < n) (λ r. r.key < suc n) (flush rs) (λ r p. omega arith)
          (Below-flush n rs h))
        (omega arith, tt)

  pub get-add : (n : ℕ) (a : A) (rs : List (Row A)) → Below n rs → get n (add n a rs) ≡ some a
  get-add n a [] h = ground arith
  get-add n a (r ∷ rs) h = ground (arith, h.0, get-add n a rs h.1)

  pub Distinct-snoc :
      (n : ℕ) (a : A) (rs : List (Row A))
      → Below n rs
      → Distinct rs
      → Distinct (rs ++ record { key = n; stored = a; live = a } ∷ [])
  Distinct-snoc n a [] b h = (tt, tt)
  Distinct-snoc n a (r ∷ rs) b h = (
    All-append (λ q. (r.key == q.key) ≡ false) rs _ h.0 (ground arith, tt),
    Distinct-snoc n a rs b.1 h.1,
  )

  -- Where keys are distinct, a row is found under its key.
  pub Distinct-get : (rs : List (Row A)) → Distinct rs → All (λ r. get r.key rs ≡ some r.live) rs
  Distinct-get [] h = tt
  Distinct-get (r ∷ rs) h = (
    ground arith,
    All-both (λ q. (r.key == q.key) ≡ false) (λ q. get q.key rs ≡ some q.live)
        (λ q. get q.key (r ∷ rs) ≡ some q.live) rs (λ q e g. rw e g) h.0 (Distinct-get rs h.1),
  )

  pub IsClean-flush : (rs : List (Row A)) → IsClean (flush rs)
  IsClean-flush [] = tt
  IsClean-flush (r ∷ rs) = (refl, IsClean-flush rs)

  pub flush-clean : (rs : List (Row A)) → IsClean rs → flush rs ≡ rs
  flush-clean [] h = refl
  flush-clean (r ∷ rs) h =
      ap (λ x. record r { stored = x } ∷ flush rs) (sym h.0) ∙ ap (◌∷◌ r) (flush-clean rs h.1)

  -- A write to the one row with a key: the row as it is written, and the other rows.
  pub All-modify_at {κ} :
      (Q : Row A → Type κ) (k : ℕ) (f : A → A) (rs : List (Row A))
      → Distinct rs
      → ((r : Row A) → r.key ≡ k → Q (record r { live = f r.live }))
      → All (λ r. (r.key == k) ≡ false → Q r) rs
      → All Q (modify k f rs)
  All-modify_at Q k f [] d step h = tt
  All-modify_at Q k f (r ∷ rs) d step h = elim (Bool-cases (r.key == k)) [
    | inr miss ↦ rw miss (h.0 miss, All-modify_at Q k f rs d.1 step h.1)
    | inl hit ↦ rw hit (
      step r ((==_iff r.key k).0 hit),
      All-both (λ q. (r.key == q.key) ≡ false) (λ q. (q.key == k) ≡ false → Q q) Q rs
          (λ q e g. g (ground (arith, hit, e))) d.0 h.1,
    )
  ]
