-- ===== src/Migrations/Chains.antt =====
-- app/bootstrap/migration.py: where a revision stands in the chain, from the first revision to the head.
use amsz_web.Migrations.Sources.{Chain, script_of, downwards, reversed, is_among, index}
use amsz_web.Session.{ok-injective, Result, ok, err, ◌>>=◌}
use amsz_web.Base.{
  ℕ, zero, suc, ◌≤◌, String, List, [], ◌∷◌, ◌++◌, length, take, str_eq, ◌≡◌, inl, inr, refl, true,
  false, Bool-cases, arith, str_eq_refl, All, All-append,
}

-- no revision stands twice
abbrev pub HasNoRepeats : Chain → Type 0
HasNoRepeats (Chain.base f) = Unit {0}
HasNoRepeats (Chain.above f c) = (is_among f.revision (downwards c) ≡ false) × HasNoRepeats c

-- the revisions from the first one on, without the head
abbrev pub before_head : Chain → List String
before_head (Chain.base f) = []
before_head (Chain.above f c) = reversed (downwards c)

pub chain-eq : (c : Chain) → reversed (downwards c) ≡ before_head c ++ ((script_of c).revision ∷ [])
chain-eq (Chain.base f) = refl
chain-eq (Chain.above f c) = refl

among_one :
    (v w : String) (xs : List String)
    → is_among v xs ≡ false
    → str_eq w v ≡ false
    → is_among v (xs ++ (w ∷ [])) ≡ false
among_one v w [] e n = rw n refl
among_one v w (x ∷ xs) e n = elim (Bool-cases (str_eq x v)) [
  | inl y ↦ absurd (cc (rw y at e))
  | inr k ↦ rw (k, among_one v w xs (rw k at e) n) refl
]

among-reversed :
    (v : String) (xs : List String) → is_among v xs ≡ false → is_among v (reversed xs) ≡ false
among-reversed v [] e = refl
among-reversed v (x ∷ xs) e = elim (Bool-cases (str_eq x v)) [
  | inl y ↦ absurd (cc (rw y at e))
  | inr k ↦ among_one v x (reversed xs) (among-reversed v xs (rw k at e)) k
]

pub among-before_head :
    (c : Chain) → HasNoRepeats c → is_among (script_of c).revision (before_head c) ≡ false
among-before_head (Chain.base f) h = refl
among-before_head (Chain.above f c) h = among-reversed f.revision (downwards c) h.0

-- the head's index is the greatest
pub index-head :
    (v : String) (xs : List String)
    → is_among v xs ≡ false
    → index v (xs ++ (v ∷ [])) ≡ ok (length xs)
unfolding index
index-head v [] e = rw (str_eq_refl v) refl
index-head v (x ∷ xs) e = elim (Bool-cases (str_eq x v)) [
  | inl y ↦ absurd (cc (rw y at e))
  | inr k ↦ rw (k, index-head v xs (rw k at e)) refl
]

suc_ok :
    (m n : ℕ) (r : Result ℕ)
    → ((k : ℕ) → r ≡ ok k → k ≤ n)
    → (r >>= (λ i. ok (suc i))) ≡ ok m
    → m ≤ suc n
suc_ok m n (err e) f q = absurd (cc q)
suc_ok m n (ok k) f q =
    let b : k ≤ n = f k refl in let s : suc k ≡ m = ok-injective q in omega (arith, b, s)

pub index-le-length :
    (v w : String) (xs : List String) (n : ℕ) → index v (xs ++ (w ∷ [])) ≡ ok n → n ≤ length xs
unfolding index
index-le-length v w [] n e = elim (Bool-cases (str_eq w v)) [
  | inl y ↦ let z : zero ≡ n = ok-injective (rw y at e) in omega (arith, z)
  | inr k ↦ absurd (cc (rw k at e))
]
index-le-length v w (x ∷ xs) n e = elim (Bool-cases (str_eq x v)) [
  | inl y ↦ let z : zero ≡ n = ok-injective (rw y at e) in omega (arith, z)
  | inr k ↦ suc_ok n (length xs) (index v (xs ++ (w ∷ []))) (index-le-length v w xs) (rw k at e)
]

-- where a revision is in a list, there is an index, and it is among the elements up to that
pub index-among :
    (v : String) (xs : List String)
    → (n : ℕ) × (index v (xs ++ (v ∷ [])) ≡ ok n)
      × (is_among v (take (suc n) (xs ++ (v ∷ []))) ≡ true)
unfolding index
index-among v [] = (0, rw (str_eq_refl v) refl, rw (str_eq_refl v) refl)
index-among v (x ∷ xs) = elim (Bool-cases (str_eq x v)) [
  | inl y ↦ (0, rw y refl, rw y refl)
  | inr k ↦ let (n, e, i) = index-among v xs in (suc n, rw (k, e) refl, rw (k, i) refl)
]

pub All-reversed {κ} : (P : String → Type κ) (xs : List String) → All P xs → All P (reversed xs)
All-reversed P [] h = tt
All-reversed P (x ∷ xs) h = All-append P (reversed xs) (x ∷ []) (All-reversed P xs h.1) (h.0, tt)
