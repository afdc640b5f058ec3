-- ===== src/Templates/Secrets.antt =====
-- core/config.py: no accepted template has an API key written out.
use amsz_web.Base.{
  Option-cases, ◌≡◌, some, inr, Bool-cases, true, inl, str_eq, ◌⊎◌, subst, str_eq_iff,
}
use amsz_web.Templates.{
  check, check_fields, check_text, placeholder, has_open, is_allowed, is_empty_text,
  validate_runtime_config_template, String,
}
use amsz_web.Templates.Resolution.{IsOk, first_ok}
use amsz_web.Services.Fanout.{get_field}
use amsz_web.Domain.{Json, Fields}

checked_field :
    (name : String) (v : Json) (fs : Fields)
    → IsOk (check_fields fs)
    → get_field name fs ≡ some v
    → IsOk (check name v)
unfolding check
checked_field name v Fields.end h g = cc g
checked_field name v (Fields.field k w rest) h g =
    let (_, e, more) = first_ok (check k w) (λ _. check_fields rest) h in
    elim (Bool-cases (str_eq k name)) [
      | inl hit ↦
          let same : w ≡ v = cc (rw hit at g) in
          subst (λ j. IsOk (check name j)) same
            (subst (λ n. IsOk (check n w)) ((str_eq_iff k name).0 hit) (rw e tt))
      | inr miss ↦ checked_field name v rest more (rw miss at g)
    ]

-- a placeholder of an allowed name, or nothing
abbrev pub IsHidden : String → Type 0
IsHidden v =
    ((name : String) × (placeholder v ≡ some name) × (is_allowed name ≡ true))
    ⊎ (is_empty_text v ≡ true)

secret_text-IsHidden : (v : String) → IsOk (check_text "api_key" v) → IsHidden v
unfolding check_text
secret_text-IsHidden v h = elim (Option-cases (placeholder v)) [
  | inr (n, e) ↦ elim (Bool-cases (is_allowed n)) [
    | inl a ↦ inl (n, e, a)
    | inr a ↦ absurd (rw (check_text, e, a) at h)
  ]
  | inl e ↦ elim (Bool-cases (has_open v)) [
    | inl o ↦ absurd (rw (check_text, e, o) at h)
    | inr o ↦ elim (Bool-cases (is_empty_text v)) [
      | inl y ↦ inr y
      | inr n ↦ absurd (rw (check_text, e, o, n) at h)
    ]
  ]
]

-- The api_key of a template that validate_runtime_config_template accepts, where it is a text, is a
-- placeholder for an allowed variable or the empty text: no key is written out.
pub api_key-IsHidden :
    (fs : Fields) (v : String)
    → IsOk (validate_runtime_config_template fs)
    → get_field "api_key" fs ≡ some (Json.str v)
    → IsHidden v
unfolding validate_runtime_config_template check
api_key-IsHidden fs v h g =
    let (_, e, _) = first_ok (check_fields fs) _ h in
    secret_text-IsHidden v (checked_field "api_key" (Json.str v) fs (rw e tt) g)
