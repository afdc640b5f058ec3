-- ===== src/Table/Order.antt =====
-- ORDER BY: a stable insertion sort of the rows by a Boolean comparison, and what it keeps.
use mathlib.Core.List.Perm
use mathlib.Core.List.{Perm}
use amsz_web.Base.{
  count, refl, arith, length, suc, Bool, true, false, List, [], ◌∷◌, ◌≡◌, if◌then◌else◌, All, inl,
  inr, Bool-cases, All-map,
}

module _ {ℓ} {A : Type ℓ} (before : A → A → Bool) where
  -- the new entry goes in front of the first one that it comes before
  abbrev pub insert_by : A → List A → List A
  insert_by x [] = x ∷ []
  insert_by x (y ∷ ys) = if before x y then x ∷ y ∷ ys else y ∷ insert_by x ys

  abbrev pub order_by : List A → List A
  order_by [] = []
  order_by (x ∷ xs) = insert_by x (order_by xs)

  insert_by-perm : (x : A) (ys : List A) → Perm (insert_by x ys) (x ∷ ys)
  insert_by-perm x [] = Perm.rfl
  insert_by-perm x (y ∷ ys) = elim (Bool-cases (before x y)) [
    | inl h ↦ rw h Perm.rfl
    | inr h ↦ rw h (Perm.trans (Perm.cons y (insert_by-perm x ys)) (Perm.swap x y ys))
  ]

  -- Sorting keeps the rows.
  pub order_by-perm : (xs : List A) → Perm (order_by xs) xs
  order_by-perm [] = Perm.nil
  order_by-perm (x ∷ xs) =
      Perm.trans (insert_by-perm x (order_by xs)) (Perm.cons x (order_by-perm xs))

  module _ {κ} (P : A → Type κ) where
    pub All-insert_by : (x : A) (ys : List A) → P x → All P ys → All P (insert_by x ys)
    All-insert_by x [] p h = (p, tt)
    All-insert_by x (y ∷ ys) p h = elim (Bool-cases (before x y)) [
      | inl e ↦ rw e (p, (h.0, h.1))
      | inr e ↦ rw e (h.0, All-insert_by x ys p h.1)
    ]

    pub All-order_by : (xs : List A) → All P xs → All P (order_by xs)
    All-order_by [] h = tt
    All-order_by (x ∷ xs) h = All-insert_by x (order_by xs) h.0 (All-order_by xs h.1)

  module _ (p : A → Bool) where
    count-insert_by : (x : A) (ys : List A) → count p (insert_by x ys) ≡ count p (x ∷ ys)
    count-insert_by x [] = refl
    count-insert_by x (y ∷ ys) = ground (arith, count-insert_by x ys)

    -- Sorting keeps how many rows pass a test.
    pub count-order_by : (xs : List A) → count p (order_by xs) ≡ count p xs
    count-order_by [] = refl
    count-order_by (x ∷ xs) = ground (arith, count-insert_by x (order_by xs), count-order_by xs)

  length-insert_by : (x : A) (ys : List A) → length (insert_by x ys) ≡ suc (length ys)
  length-insert_by x [] = refl
  length-insert_by x (y ∷ ys) = ground (arith, length-insert_by x ys)

  pub length-order_by : (xs : List A) → length (order_by xs) ≡ length xs
  length-order_by [] = refl
  length-order_by (x ∷ xs) = omega (arith, length-insert_by x (order_by xs), length-order_by xs)

  -- no entry comes before one that stands in front of it
  abbrev pub InOrder : List A → Type 0
  InOrder [] = Unit
  InOrder (x ∷ xs) = All (λ y. before y x ≡ false) xs × InOrder xs

  module _ (asym : (x y : A) → before x y ≡ true → before y x ≡ false)
      (trans : (x y z : A) → before x y ≡ true → before y z ≡ true → before x z ≡ true) where
    not_before : (x y z : A) → before x y ≡ true → before z y ≡ false → before z x ≡ false
    not_before x y z h k = elim (Bool-cases (before z x)) [
      | inl e ↦ cc (trans z x y e h)
      | inr e ↦ e
    ]

    InOrder-insert_by : (x : A) (ys : List A) → InOrder ys → InOrder (insert_by x ys)
    InOrder-insert_by x [] h = (tt, tt)
    InOrder-insert_by x (y ∷ ys) h = elim (Bool-cases (before x y)) [
      | inl e ↦ rw e (
        (
          asym x y e,
          All-map (λ z. before z y ≡ false) (λ z. before z x ≡ false) ys (λ z. not_before x y z e)
              h.0,
        ),
        h,
      )
      | inr e ↦
          rw e (All-insert_by (λ z. before z y ≡ false) x ys e h.0, InOrder-insert_by x ys h.1)
    ]

    -- The sort puts the rows in order.
    pub InOrder-order_by : (xs : List A) → InOrder (order_by xs)
    InOrder-order_by [] = tt
    InOrder-order_by (x ∷ xs) = InOrder-insert_by x (order_by xs) (InOrder-order_by xs)
