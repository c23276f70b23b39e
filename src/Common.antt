-- ===== src/Common.antt =====
-- The names that the modules share: the libraries', passed on, and those of the children, which
-- hold the Boolean tests, C's fixed arrays with the scan over them, and 32-bit integers.
mod Tests
mod Arrays
mod Words
mod Lists
mod Jumps
pub use Tests.*
unfoldable pub use Arrays.*
unfoldable pub use Words.*
unfoldable pub use Lists.*
pub use Jumps.*
pub use Prim.Native.Nat.{ℕ, zero, suc, ◌+◌, ◌-◌, ◌*◌, ◌/◌, ◌%◌, ◌^◌, ◌≤◌, ◌<◌}
pub use mathlib.Core.Path.{◌≡◌, refl, sym, ap, ap₂, ◌∙◌, subst, fun_ext}
pub use mathlib.Core.Logic.{◌≢◌, ◌↔◌, ◌⊎◌, inl, inr}
pub use mathlib.Core.Bool.{Bool, true, false, not, ◌&&◌, ◌||◌}
pub use mathlib.Core.Option.{Option, none, some}
pub use mathlib.Core.List.{List, [], ◌∷◌, ◌++◌, map}
pub use native.Mathlib.Omega.{arith}
