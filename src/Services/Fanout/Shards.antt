-- ===== src/Services/Fanout/Shards.antt =====
-- The shards of a fan-out request: they are the items, cut into pieces.
use amsz_web.Services.Fanout.{slices, shards, child_specs, Json}
use amsz_web.Base.{
  ◌≤◌, ◌<◌, List, ℕ, length, ◌≡◌, All, ◌∷◌, arith, suc, ap, ◌++◌, length-take, take, [], drop, ◌∙◌,
  length-drop, refl, zero, take-append-drop,
}

abbrev pub flatten {ℓ} : {A : Type ℓ} → List (List A) → List A
flatten [] = []
flatten (xs ∷ xss) = xs ++ flatten xss

-- a shard that is not empty and not too large
abbrev pub IsShard {ℓ} : {A : Type ℓ} → ℕ → List A → Type 0
IsShard size shard = (0 < length shard) × (length shard ≤ size)

module _ {ℓ} {A : Type ℓ} where
  length-drop-lt :
      (n size : ℕ) (x : A) (xs : List A)
      → 0 < size
      → length (x ∷ xs) ≤ suc n
      → length (drop size (x ∷ xs)) ≤ n
  length-drop-lt n size x xs p h = omega (arith, length-drop size (x ∷ xs))

  flatten-slices :
      (n size : ℕ) (items : List A)
      → 0 < size
      → length items ≤ n
      → flatten (slices n size items) ≡ items
  unfolding slices
  flatten-slices n size [] p h = refl
  flatten-slices zero size (x ∷ xs) p h = ground arith
  flatten-slices (suc n) size (x ∷ xs) p h =
      ap (λ ys. take size (x ∷ xs) ++ ys)
        (flatten-slices n size (drop size (x ∷ xs)) p (length-drop-lt n size x xs p h))
      ∙ take-append-drop size (x ∷ xs)

  slices-IsShard :
      (n size : ℕ) (items : List A) → 0 < size → All (IsShard size) (slices n size items)
  unfolding slices
  slices-IsShard n size [] p = tt
  slices-IsShard zero size (x ∷ xs) p = tt
  slices-IsShard (suc n) size (x ∷ xs) p =
      let e = length-take size (x ∷ xs) in
      ((omega (arith, e), omega (arith, e)), slices-IsShard n size (drop size (x ∷ xs)) p)

  -- The shards of a positive size are the items in their order, each shard has an item, and none has
  -- more items than the size.
  pub shards-IsShard :
      (size : ℕ) (items : List A)
      → 0 < size
      → (flatten (shards size items) ≡ items) × All (IsShard size) (shards size items)
  unfolding shards
  shards-IsShard size items p = (
    flatten-slices (length items) size items p (omega arith),
    slices-IsShard (length items) size items p,
  )

pub length-child_specs :
    (priority index : ℕ) (shards : List (List Json))
    → length (child_specs priority index shards) ≡ length shards
unfolding child_specs
length-child_specs priority index [] = refl
length-child_specs priority index (shard ∷ rest) =
    ap suc (length-child_specs priority (suc index) rest)
