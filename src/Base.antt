-- ===== src/Base.antt =====
-- The names that the other modules share: the libraries' names, passed on, with the Boolean tests,
-- list functions and integers over the native numbers, and the predicates on lists.
mod Tests
mod Lists
mod Predicates
mod Products
pub mod Int
pub mod Text
pub mod Parse
pub use Tests.*
pub use Lists.*
pub use Predicates.*
pub use Products.*
pub use Prim.Native.Nat.{ℕ, zero, suc, ◌+◌, ◌-◌, ◌*◌, ◌/◌, ◌%◌, ◌^◌, ◌≤◌, ◌<◌, min, max}
pub use mathlib.Core.Path.{◌≡◌, refl, sym, ap, subst, ◌∙◌}
pub use mathlib.Core.Logic.{◌≢◌, ◌↔◌, ◌⊎◌, inl, inr}
pub use mathlib.Core.Bool.{Bool, true, false, not, ◌&&◌, ◌||◌}
pub use mathlib.Core.Option.{Option, none, some}
pub use mathlib.Core.List.{List, [], ◌∷◌, ◌++◌, map}
pub use native.Mathlib.Omega.{arith}
