-- ===== src/Base.antt =====
-- Names shared by every module: the libraries', passed on, and those of the children.
pub mod Tests
pub mod Lists
pub mod Dict
pub mod Sums
pub mod Loop
pub mod Result
pub mod Strings
pub use Prim.Native.Nat.{ℕ, zero, suc, ◌+◌, ◌-◌, ◌*◌, ◌/◌, ◌%◌, ◌≤◌, ◌<◌}
pub use mathlib.Core.Path.{◌≡◌, refl, sym, ap, ◌∙◌, subst}
pub use mathlib.Core.Logic.{◌≢◌, ◌↔◌, ◌⊎◌, inl, inr}
pub use mathlib.Core.Bool.{Bool, true, false, not, ◌&&◌, ◌||◌}
pub use mathlib.Core.Option.{Option, none, some}
pub use mathlib.Core.List.{List, [], ◌∷◌, ◌++◌, map, Memᴰ}
pub use native.Mathlib.Omega.{arith}
unfoldable pub use Tests.*
unfoldable pub use Lists.*
pub use Sums.*
