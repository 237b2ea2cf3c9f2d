-- ===== src/Common.antt =====
-- The names that the modules share: the libraries', passed on, the Boolean tests, texts, maps,
-- decimal numerals and the results of code that throws.
mod Tests
mod Texts
pub mod Map
pub mod Decimal
mod Results
mod Lists
pub mod Sorting
pub mod Marks
pub mod Separators
pub mod Splitting
pub mod Json
pub mod Http
pub mod Scanning
pub use Tests.*
unfoldable pub use Texts.*
pub use Results.*
unfoldable pub use Lists.*
pub use Prim.Native.Nat.{ℕ, zero, suc, ◌+◌, ◌-◌, ◌*◌, ◌/◌, ◌%◌, ◌^◌, ◌≤◌, ◌<◌}
pub use mathlib.Core.Path.{◌≡◌, refl, sym, ap, subst, ◌∙◌}
pub use mathlib.Core.Logic.{◌≢◌, ◌↔◌, ◌⊎◌, inl, inr}
pub use mathlib.Core.Bool.{Bool, true, false, not, ◌&&◌, ◌||◌}
pub use mathlib.Core.Option.{Option, none, some}
pub use mathlib.Core.List.{List, [], ◌∷◌, ◌++◌, map}
pub use native.Mathlib.Omega.{arith}
