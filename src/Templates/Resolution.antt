-- ===== src/Templates/Resolution.antt =====
-- core/config.py: a template that is accepted can be resolved.
use amsz_web.Base.{Option-cases, inr, Bool-cases, inl}
use mathlib.Core.Path.{refl, ◌≡◌}
use amsz_web.Templates.{
  Environment, check, check_items, check_fields, check_text, resolve, resolve_items, resolve_fields,
  resolve_text, required, is_allowed, placeholder, has_open, validate_runtime_config_template,
  String, true,
}
use amsz_web.Domain.{Json, Items, Fields}
use amsz_web.Session.{Result, ok, err, ◌>>=◌}

-- the call returns
abbrev pub IsOk {ℓ} : {A : Type ℓ} → Result A → Type 0
IsOk (ok a) = Unit
IsOk (err e) = ⊥

-- every variable that a template may name is set and not empty
abbrev pub Provides : Environment → Type 0
Provides getenv = (name : String) → is_allowed name ≡ true → IsOk (required name (getenv name))

IsOk-bind {ℓ κ} :
    {A : Type ℓ} {B : Type κ} (m : Result A) (k : A → Result B)
    → IsOk m
    → ((a : A) → IsOk (k a))
    → IsOk (m >>= k)
IsOk-bind (ok a) k h step = step a
IsOk-bind (err e) k h step = absurd h

-- a chain of two checks that returns
pub first_ok {ℓ κ} :
    {A : Type ℓ} {B : Type κ} (m : Result A) (k : A → Result B)
    → IsOk (m >>= k)
    → (a : A) × (m ≡ ok a) × IsOk (k a)
first_ok (ok a) k h = (a, refl, h)
first_ok (err e) k h = absurd h

module _ (getenv : Environment) (set : Provides getenv) where
  resolve_text-IsOk : (name v : String) → IsOk (check_text name v) → IsOk (resolve_text getenv v)
  unfolding check_text resolve_text
  resolve_text-IsOk name v h = elim (Option-cases (placeholder v)) [
    | inr (n, e) ↦ elim (Bool-cases (is_allowed n)) [
      | inl a ↦ rw (resolve_text, e, a) (set n a)
      | inr a ↦ absurd (rw (check_text, e, a) at h)
    ]
    | inl e ↦ elim (Bool-cases (has_open v)) [
      | inl o ↦ absurd (rw (check_text, e, o) at h)
      | inr o ↦ rw (resolve_text, e, o) tt
    ]
  ]

  mutual
    unfolding check resolve

    resolve-IsOk : (name : String) (v : Json) → IsOk (check name v) → IsOk (resolve getenv v)
    resolve-IsOk name (Json.obj fs) h =
        IsOk-bind (resolve_fields getenv fs) (λ gs. ok (Json.obj gs)) (resolve_fields-IsOk fs h)
          (λ _. tt)
    resolve-IsOk name (Json.arr xs) h =
        IsOk-bind (resolve_items getenv xs) (λ ys. ok (Json.arr ys)) (resolve_items-IsOk name xs h)
          (λ _. tt)
    resolve-IsOk name (Json.str v) h =
        IsOk-bind (resolve_text getenv v) (λ w. ok (Json.str w)) (resolve_text-IsOk name v h)
          (λ _. tt)
    resolve-IsOk name Json.null h = tt
    resolve-IsOk name (Json.bool b) h = tt
    resolve-IsOk name (Json.num n) h = tt
    resolve-IsOk name (Json.neg n) h = tt
    resolve-IsOk name (Json.float v) h = tt

    resolve_items-IsOk :
        (name : String) (xs : Items) → IsOk (check_items name xs) → IsOk (resolve_items getenv xs)
    resolve_items-IsOk name Items.nil h = tt
    resolve_items-IsOk name (Items.cons x xs) h =
        let (_, e, rest) = first_ok (check name x) (λ _. check_items name xs) h in
        IsOk-bind (resolve getenv x) _ (resolve-IsOk name x (rw e tt)) λ y.
          IsOk-bind (resolve_items getenv xs) (λ ys. ok (Items.cons y ys))
            (resolve_items-IsOk name xs rest) (λ _. tt)

    resolve_fields-IsOk : (fs : Fields) → IsOk (check_fields fs) → IsOk (resolve_fields getenv fs)
    resolve_fields-IsOk Fields.end h = tt
    resolve_fields-IsOk (Fields.field k v fs) h =
        let (_, e, rest) = first_ok (check k v) (λ _. check_fields fs) h in
        IsOk-bind (resolve getenv v) _ (resolve-IsOk k v (rw e tt)) λ w.
          IsOk-bind (resolve_fields getenv fs) (λ gs. ok (Fields.field k w gs))
            (resolve_fields-IsOk fs rest) (λ _. tt)

-- A template that validate_runtime_config_template accepts resolves wherever the six variables that it
-- may name are set and not empty: resolve_config_placeholders does not raise.
pub validated_template_resolves :
    (getenv : Environment) (fs : Fields)
    → Provides getenv
    → IsOk (validate_runtime_config_template fs)
    → IsOk (resolve_fields getenv fs)
unfolding validate_runtime_config_template
validated_template_resolves getenv fs set h =
    let (_, e, _) = first_ok (check_fields fs) _ h in resolve_fields-IsOk getenv set fs (rw e tt)
