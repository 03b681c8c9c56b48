-- ===== src/Base.antt =====
-- Names that every component shares: library names passed on, Boolean tests, lists and texts.
mod Tests
mod Lists
mod Texts
mod Signed
pub mod Sorting
pub mod Upsert
pub mod Among
pub use Tests.*
pub use Lists.*
pub use Texts.*
unfoldable pub use Texts.{same}
pub use Signed.*
pub use Prim.Native.Nat.{ℕ, zero, suc, ◌+◌, ◌-◌, ◌*◌, ◌/◌, ◌%◌, ◌^◌, ◌≤◌, ◌<◌, min, max}
pub use mathlib.Core.Path.{◌≡◌, refl, sym, ap, ◌∙◌, subst}
pub use mathlib.Core.Logic.{◌≢◌, ◌↔◌, ◌⊎◌, inl, inr}
pub use mathlib.Core.Bool.{Bool, true, false, ◌&&◌, ◌||◌, not}
pub use mathlib.Core.Option.{Option, none, some}
pub use mathlib.Core.List.{List, [], ◌∷◌, ◌++◌, map}
pub use native.Mathlib.Omega.{arith}
