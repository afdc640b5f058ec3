-- ===== src/Base/Options.antt =====
-- Optional columns: tests on them, and the split that keeps the equation.
use Prim.Native.String.{String}
use mathlib.Core.Path.{◌≡◌, refl}
use mathlib.Core.Logic.{◌⊎◌, inl, inr}
use mathlib.Core.Bool.{Bool, true, false}
use mathlib.Core.Option.{Option, none, some}
use text.Mathlib.Text.{◌==◌ as str_eq}

module _ {ℓ} {A : Type ℓ} where
  pub Option-cases : (o : Option A) → (o ≡ none) ⊎ ((a : A) × (o ≡ some a))
  Option-cases none = inl refl
  Option-cases (some a) = inr (a, refl)

  pub some-injective : {a b : A} → some a ≡ some b → a ≡ b
  some-injective e = cc e

  -- `column is not None`
  abbrev pub is_some : Option A → Bool
  is_some none = false
  is_some (some a) = true

  -- `value or default`, for a value that is false only where it is missing
  abbrev pub or_else : Option A → A → A
  or_else none d = d
  or_else (some a) d = a

  -- the value, kept where the test holds
  abbrev pub keep_if : (A → Bool) → Option A → Bool
  keep_if p none = false
  keep_if p (some a) = p a

-- `column == text`, false on NULL
abbrev pub some_eq : Option String → String → Bool
some_eq none w = false
some_eq (some v) w = str_eq v w

-- the truth value of an optional text: the empty text is false
abbrev pub truthy : Option String → Bool
truthy none = false
truthy (some String.[]) = false
truthy (some (String.◌∷◌ c s)) = true
