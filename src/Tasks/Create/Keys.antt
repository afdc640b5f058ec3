-- ===== src/Tasks/Create/Keys.antt =====
-- task_repository.py: the two tests of create_task on the type and the idempotency key, by the rows of
-- the table.
use amsz_web.Tasks.Create.{has_key, find_key, same_key}
use amsz_web.Table.{Row}
use amsz_web.Models.{Task}
use amsz_web.Base.{
  String, Bool, true, false, Option, none, some, List, [], ◌∷◌, All, ◌≡◌, ◌≢◌, ◌⊎◌, inl, inr, refl,
  sym, ◌∙◌, ap, Bool-cases, str_eq, some_eq, str_eq_iff, str_eq_refl, truthy, ◌&&◌, ℕ,
  if◌then◌else◌, not, is_some,
}

-- `t` has the type and the key
pub record HasKey (task_type key : String) (t : Task) : Type 0 where
  pub same_type : t.task_type ≡ task_type
  pub same_key : t.idempotency_key ≡ some key

-- one row of a table satisfies `P`
pub data Some (P : Row Task → Type 0) : List (Row Task) → Type 0 where
  here : {r : Row Task} {rs : List (Row Task)} → P r → Some P (r ∷ rs)
  there : {r : Row Task} {rs : List (Row Task)} → Some P rs → Some P (r ∷ rs)

key_of : (o : Option String) (key : String) → some_eq o key ≡ true → o ≡ some key
key_of none key e = absurd (cc e)
key_of (some v) key e = ap some ((str_eq_iff v key).0 e)

is_key : (o : Option String) (key : String) → o ≡ some key → some_eq o key ≡ true
is_key o key e = rw e (str_eq_refl key)

both : (a b : Bool) → (a && b) ≡ true → (a ≡ true) × (b ≡ true)
both true true e = (refl, refl)
both true false e = absurd (cc e)
both false b e = absurd (cc e)

not_both : (a b : Bool) → (a && b) ≡ false → (a ≡ false) ⊎ (b ≡ false)
not_both true b e = inr e
not_both false b e = inl refl

same_key-HasKey : (ty key : String) (t : Task) → same_key ty key t ≡ true → HasKey ty key t
same_key-HasKey ty key t e =
    let (x, y) = both (str_eq t.task_type ty) (some_eq t.idempotency_key key) e in
    record {
      same_type = (str_eq_iff t.task_type ty).0 x;
      same_key = key_of t.idempotency_key key y;
    }

differs :
    (ty key : String) (t : Task)
    → same_key ty key t ≡ false
    → (t.task_type ≢ ty) ⊎ (t.idempotency_key ≢ some key)
differs ty key t e = elim (not_both (str_eq t.task_type ty) (some_eq t.idempotency_key key) e) [
  | inl n ↦ inl (λ q. cc (sym n ∙ (str_eq_iff t.task_type ty).1 q))
  | inr n ↦ inr (λ q. cc (sym n ∙ is_key t.idempotency_key key q))
]

find_key-none :
    (ty key : String) (rs : List (Row Task))
    → find_key ty (some key) rs ≡ none
    → All (λ r. (r.stored.task_type ≢ ty) ⊎ (r.stored.idempotency_key ≢ some key)) rs
find_key-none ty key [] e = tt
find_key-none ty key (r ∷ rs) e = elim (Bool-cases (same_key ty key r.stored)) [
  | inl y ↦ absurd (cc (rw y at e))
  | inr n ↦ (differs ty key r.stored n, find_key-none ty key rs (rw n at e))
]

find_key-some :
    (ty key : String) (q : Row Task) (rs : List (Row Task))
    → find_key ty (some key) rs ≡ some q
    → Some (λ r. (r ≡ q) × HasKey ty key r.stored) rs
find_key-some ty key q [] e = absurd (cc e)
find_key-some ty key q (r ∷ rs) e = elim (Bool-cases (same_key ty key r.stored)) [
  | inl y ↦ Some.here (cc (rw y at e), same_key-HasKey ty key r.stored y)
  | inr n ↦ Some.there (find_key-some ty key q rs (rw n at e))
]

has_key-false :
    (ty key : String) (rs : List (Row Task))
    → has_key ty (some key) rs ≡ false
    → All (λ r. (r.live.task_type ≢ ty) ⊎ (r.live.idempotency_key ≢ some key)) rs
has_key-false ty key [] e = tt
has_key-false ty key (r ∷ rs) e = elim (Bool-cases (same_key ty key r.live)) [
  | inl y ↦ absurd (cc (rw y at e))
  | inr n ↦ (differs ty key r.live n, has_key-false ty key rs (rw n at e))
]

has_key-true :
    (ty key : String) (rs : List (Row Task))
    → has_key ty (some key) rs ≡ true
    → Some (λ r. HasKey ty key r.live) rs
has_key-true ty key [] e = absurd (cc e)
has_key-true ty key (r ∷ rs) e = elim (Bool-cases (same_key ty key r.live)) [
  | inl y ↦ Some.here (same_key-HasKey ty key r.live y)
  | inr n ↦ Some.there (has_key-true ty key rs (rw n at e))
]

pub Some-map :
    (P Q : Row Task → Type 0) (rs : List (Row Task))
    → ((r : Row Task) → P r → Q r)
    → Some P rs
    → Some Q rs
Some-map P Q _ f (Some.here p) = Some.here (f _ p)
Some-map P Q _ f (Some.there x) = Some.there (Some-map P Q _ f x)

abbrev pub looked_for : String → Option String → Option ℕ → List (Row Task) → Option (Row Task)
looked_for ty o p rs = if truthy o && not (is_some p) then find_key ty o rs else none

pub looked_for-none :
    (ty : String) (o : Option String) (p : Option ℕ) (rs : List (Row Task))
    → looked_for ty o p rs ≡ none
    → (truthy o ≡ false)
      ⊎ (p ≢ none)
      ⊎ ((key : String) × (o ≡ some key)
          × All (λ r. (r.stored.task_type ≢ ty) ⊎ (r.stored.idempotency_key ≢ some key)) rs)
looked_for-none ty none p rs e = inl refl
looked_for-none ty (some String.[]) p rs e = inl refl
looked_for-none ty (some (String.◌∷◌ c s)) (some k) rs e = inr (inl (λ q. cc q))
looked_for-none ty (some (String.◌∷◌ c s)) none rs e =
    inr (inr (String.◌∷◌ c s, refl, find_key-none ty (String.◌∷◌ c s) rs e))

pub looked_for-some :
    (ty : String) (o : Option String) (p : Option ℕ) (rs : List (Row Task)) (q : Row Task)
    → looked_for ty o p rs ≡ some q
    → (key : String) × (o ≡ some key) × (p ≡ none) × Some (λ r. (r ≡ q) × HasKey ty key r.stored) rs
looked_for-some ty none p rs q e = absurd (cc e)
looked_for-some ty (some String.[]) p rs q e = absurd (cc e)
looked_for-some ty (some (String.◌∷◌ c s)) (some k) rs q e = absurd (cc e)
looked_for-some ty (some (String.◌∷◌ c s)) none rs q e =
    (String.◌∷◌ c s, refl, refl, find_key-some ty (String.◌∷◌ c s) q rs e)

pub free :
    (ty : String) (o : Option String) (rs : List (Row Task))
    → has_key ty o rs ≡ false
    → (o ≡ none)
      ⊎ ((key : String) × (o ≡ some key)
          × All (λ r. (r.live.task_type ≢ ty) ⊎ (r.live.idempotency_key ≢ some key)) rs)
free ty none rs e = inl refl
free ty (some key) rs e = inr (key, refl, has_key-false ty key rs e)

pub taken :
    (ty : String) (o : Option String) (rs : List (Row Task))
    → has_key ty o rs ≡ true
    → (key : String) × (o ≡ some key) × Some (λ r. HasKey ty key r.live) rs
taken ty none rs e = absurd (cc e)
taken ty (some key) rs e = (key, refl, has_key-true ty key rs e)
