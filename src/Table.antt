-- ===== src/Table.antt =====
-- A table as a SQLAlchemy session sees it. session.py opens every session with `autoflush=False`, so
-- a row has the columns that the database holds (`stored`, which WHERE and ORDER BY read) and the
-- columns of the object in the identity map (`live`, which attributes read and write); `flush` and
-- the commit copy the second to the first.
pub mod Laws
pub mod Order
use amsz_web.Base.{
  ℕ, Bool, Option, none, some, List, [], ◌∷◌, ◌++◌, ◌≡◌, map, ◌==◌, if◌then◌else◌, All, keep_if,
  select, not,
}

pub record Row {ℓ} (A : Type ℓ) : Type ℓ where
  pub key : ℕ
  pub stored : A
  pub live : A

module _ {ℓ} {A : Type ℓ} where
  -- session.get(Model, key)
  abbrev pub get : ℕ → List (Row A) → Option A
  get k [] = none
  get k (r ∷ rs) = if r.key == k then some r.live else get k rs

  -- assignments to the attributes of the object with a key
  abbrev pub modify : ℕ → (A → A) → List (Row A) → List (Row A)
  modify k f [] = []
  modify k f (r ∷ rs) = if r.key == k then record r { live = f r.live } ∷ rs else r ∷ modify k f rs

  abbrev pub flushed : Row A → Row A
  flushed r = record { key = r.key; stored = r.live; live = r.live }

  -- session.flush()
  abbrev pub flush : List (Row A) → List (Row A)
  flush = map flushed

  -- session.add(object); session.flush()
  abbrev pub insert : ℕ → A → List (Row A) → List (Row A)
  insert k a rs = flush rs ++ record { key = k; stored = a; live = a } ∷ []

  -- select(Model).where(p): the test reads the stored columns
  abbrev pub query : (A → Bool) → List (Row A) → List (Row A)
  query p rs = select (λ r. p r.stored) rs

  -- session.add(object): no SELECT sees the row before it is flushed
  abbrev pub add : ℕ → A → List (Row A) → List (Row A)
  add k a rs = rs ++ record { key = k; stored = a; live = a } ∷ []

  abbrev pub first : List (Row A) → Option (Row A)
  first [] = none
  first (r ∷ rs) = some r

  -- session.scalar(select(Model).where(p))
  abbrev pub scalar : (A → Bool) → List (Row A) → Option (Row A)
  scalar p rs = first (query p rs)

  -- a property of every object of the table
  abbrev pub Every {κ} : (ℕ → A → Type κ) → List (Row A) → Type κ
  Every P = All (λ r. P r.key r.live)

  -- what a session that has just begun sees: nothing is changed
  abbrev pub IsClean : List (Row A) → Type ℓ
  IsClean = All (λ r. r.stored ≡ r.live)

  -- the rows with another key
  abbrev pub without : ℕ → List (Row A) → List (Row A)
  without k = select (λ r. not (r.key == k))

  abbrev pub keys : List (Row A) → List ℕ
  keys = map (λ r. r.key)
