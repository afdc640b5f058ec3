-- ===== src/Base.antt =====
-- The names that every module shares: those of the libraries and of the five children.
mod Tests
mod Lists
mod Options
mod Texts
mod Decimal
pub use Tests.*
pub use Lists.*
pub use Options.*
pub use Texts.*
unfoldable pub use Decimal.{decimal}
pub use Prim.Native.String.{◌++◌ as append}
pub use Prim.Native.Nat.{ℕ, zero, suc, ◌+◌, ◌-◌, ◌*◌, ◌/◌, ◌%◌, ◌^◌, ◌≤◌, ◌<◌, min, max}
pub use Prim.Native.String.{String}
pub use mathlib.Core.Path.{◌≡◌, refl, sym, ap, ◌∙◌, subst}
pub use mathlib.Core.Logic.{◌≢◌, ◌↔◌, ◌⊎◌, inl, inr}
pub use mathlib.Core.Bool.{Bool, true, false, not, ◌&&◌, ◌||◌}
pub use mathlib.Core.Option.{Option, none, some}
pub use mathlib.Core.List.{List, [], ◌∷◌, ◌++◌, map}
pub use native.Mathlib.Omega.{arith}
