-- ===== src/Templates.antt =====
-- core/config.py: a template of the runtime configuration is checked, and its placeholders are replaced
-- by values of the environment. pydantic's check of the result is a parameter.
pub mod Resolution
pub mod Secrets
use mathlib.Core.Option.{Option}
use amsz_web.Base.{
  if◌then◌else◌, ℕ, String, none, is_some, Bool, ◌==◌, some, str_eq, ◌&&◌, leb, true, false, not,
  ◌||◌, append,
}
use Prim.Native.Char.{code}
use amsz_web.Domain.{Json, Items, Fields}
use amsz_web.Session.{Result, ok, err, Error, ◌>>=◌}
use amsz_web.Services.Fanout.{get_field}
use mathlib.Core.Option

-- [A-Z0-9_]
abbrev is_name_code : ℕ → Bool
is_name_code n = (leb 65 n && leb n 90) || (leb 48 n && leb n 57) || (n == 95)

abbrev pub is_empty_text : String → Bool
is_empty_text String.[] = true
is_empty_text (String.◌∷◌ c s) = false

-- the name in front of a last closing brace
unfoldable pub name_before_brace : String → Option String
name_before_brace String.[] = none
name_before_brace (String.◌∷◌ c s) =
    let rest = name_before_brace s in
    if code c == 125
    then if is_empty_text s then some "" else none
    else if is_name_code (code c)
    then Option.map (String.◌∷◌ c) rest
    else none

-- `none` for the empty name, which `+` does not match
abbrev non_empty : Option String → Option String
non_empty (some String.[]) = none
non_empty o = o

-- PLACEHOLDER_PATTERN.fullmatch(value), by its group
unfoldable pub placeholder : String → Option String
placeholder (String.◌∷◌ c (String.◌∷◌ d s)) =
    if (code c == 36) && (code d == 123) then non_empty (name_before_brace s) else none
placeholder _ = none

abbrev begins_with_brace : String → Bool
begins_with_brace String.[] = false
begins_with_brace (String.◌∷◌ c s) = code c == 123

-- "${" in value
unfoldable pub has_open : String → Bool
has_open String.[] = false
has_open (String.◌∷◌ c s) = ((code c == 36) && begins_with_brace s) || has_open s

-- ALLOWED_PLACEHOLDER_ENV_NAMES and SECRET_FIELD_NAMES
abbrev pub is_allowed : String → Bool
is_allowed name =
    str_eq name "API_KEY"
    || str_eq name "WORKER_ID"
    || str_eq name "POD_NAME"
    || str_eq name "APP_ENV"
    || str_eq name "WORKER_QUEUE"
    || str_eq name "WORKER_CONCURRENCY"

abbrev pub is_secret : String → Bool
is_secret name = str_eq name "api_key"

-- the part of _validate_template_value on strings
unfoldable pub check_text : String → String → Result (Unit {0})
check_text field_name value = elim (placeholder value) [
  | some name ↦
      if is_allowed name
      then ok tt
      else err (Error.invalid (append "Placeholder '" (append name "' is not allowed")))
  | none ↦
      if has_open value
      then err (
          Error.invalid
            (append "Field '" (append field_name "' contains an invalid placeholder expression")))
      else if is_secret field_name && not (is_empty_text value)
      then err (
          Error.invalid (append "Sensitive field '" (append field_name "' must use a placeholder")))
      else ok tt
]

-- _validate_template_value
unfoldable mutual
  pub check : String → Json → Result (Unit {0})
  check name (Json.obj fs) = check_fields fs
  check name (Json.arr xs) = check_items name xs
  check name (Json.str v) = check_text name v
  check name Json.null = ok tt
  check name (Json.bool b) = ok tt
  check name (Json.num n) = ok tt
  check name (Json.neg n) = ok tt
  check name (Json.float v) = ok tt

  pub check_items : String → Items → Result (Unit {0})
  check_items name Items.nil = ok tt
  check_items name (Items.cons x xs) = check name x >>= λ _. check_items name xs

  pub check_fields : Fields → Result (Unit {0})
  check_fields Fields.end = ok tt
  check_fields (Fields.field k v rest) = check k v >>= λ _. check_fields rest

unfoldable pub validate_runtime_config_template : Fields → Result (Unit {0})
validate_runtime_config_template fs = check_fields fs >>= λ _.
    if is_some (get_field "api_key" fs)
    then ok tt
    else err (Error.invalid "Sensitive field 'api_key' is missing from template")

-- os.getenv
abbrev pub Environment : Type 0
Environment = String → Option String

-- a variable that is set and not empty
abbrev pub required : String → Option String → Result String
required name none =
    err (Error.invalid (append "Environment variable '" (append name "' is required")))
required name (some String.[]) =
    err (Error.invalid (append "Environment variable '" (append name "' is required")))
required name (some v) = ok v

-- the part of _resolve_template_value on strings
unfoldable pub resolve_text : Environment → String → Result String
resolve_text getenv value = elim (placeholder value) [
  | some name ↦
      if is_allowed name
      then required name (getenv name)
      else err (Error.invalid (append "Placeholder '" (append name "' is not allowed")))
  | none ↦
      if has_open value
      then err (Error.invalid "Only full-value placeholders are supported")
      else ok value
]

-- _resolve_template_value and resolve_config_placeholders
unfoldable mutual
  pub resolve : Environment → Json → Result Json
  resolve getenv (Json.obj fs) = resolve_fields getenv fs >>= λ gs. ok (Json.obj gs)
  resolve getenv (Json.arr xs) = resolve_items getenv xs >>= λ ys. ok (Json.arr ys)
  resolve getenv (Json.str v) = resolve_text getenv v >>= λ w. ok (Json.str w)
  resolve getenv Json.null = ok Json.null
  resolve getenv (Json.bool b) = ok (Json.bool b)
  resolve getenv (Json.num n) = ok (Json.num n)
  resolve getenv (Json.neg n) = ok (Json.neg n)
  resolve getenv (Json.float v) = ok (Json.float v)

  pub resolve_items : Environment → Items → Result Items
  resolve_items getenv Items.nil = ok Items.nil
  resolve_items getenv (Items.cons x xs) =
      resolve getenv x >>= λ y. resolve_items getenv xs >>= λ ys. ok (Items.cons y ys)

  pub resolve_fields : Environment → Fields → Result Fields
  resolve_fields getenv Fields.end = ok Fields.end
  resolve_fields getenv (Fields.field k v rest) =
      resolve getenv v >>= λ w. resolve_fields getenv rest >>= λ gs. ok (Fields.field k w gs)

-- RuntimeSettings.model_validate is `model_validate`
unfoldable pub build_runtime_settings {ℓ} :
    {A : Type ℓ} → Environment → (Fields → Result A) → Fields → Result A
build_runtime_settings getenv model_validate template = do
  _ ← validate_runtime_config_template template
  resolved ← resolve_fields getenv template
  model_validate resolved
