-- ===== src/Base/Texts.antt =====
-- Texts: equality and Python's slice from the start.
use Prim.Native.Nat.{ℕ, zero, suc, ◌≤◌}
use Prim.Native.String.{String}
use mathlib.Core.Path.{◌≡◌, refl, ap}
use native.Mathlib.Omega.{arith}
pub use text.Mathlib.Text.{◌==◌ as str_eq}
pub use text.Mathlib.TextEquality.{eq_iff as str_eq_iff}
pub use text.Mathlib.TextPositions.{eq_refl as str_eq_refl}

-- len(text), in characters
abbrev pub text_length : String → ℕ
text_length String.[] = 0
text_length (String.◌∷◌ c s) = suc (text_length s)

-- text[:n]
abbrev pub take_text : ℕ → String → String
take_text zero s = String.[]
take_text (suc n) String.[] = String.[]
take_text (suc n) (String.◌∷◌ c s) = String.◌∷◌ c (take_text n s)

pub text_length-take_text : (n : ℕ) (s : String) → text_length (take_text n s) ≤ n
text_length-take_text zero s = omega arith
text_length-take_text (suc n) String.[] = omega arith
text_length-take_text (suc n) (String.◌∷◌ c s) = omega (arith, text_length-take_text n s)

pub take_text-eq_self : (n : ℕ) (s : String) → text_length s ≤ n → take_text n s ≡ s
take_text-eq_self zero String.[] h = refl
take_text-eq_self zero (String.◌∷◌ c s) h = absurd (omega arith)
take_text-eq_self (suc n) String.[] h = refl
take_text-eq_self (suc n) (String.◌∷◌ c s) h =
    ap (String.◌∷◌ c) (take_text-eq_self n s (omega arith))
