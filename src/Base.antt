-- ===== src/Base.antt =====
-- The names that every module shares: the libraries', passed on, and those of the children here
-- (tests on numbers, lists and text measured by native numbers, results of code that may raise).
mod Tests
mod Lists
mod Raising
mod Postconditions
pub mod Text
pub mod Dict
pub use Tests.*
pub use Lists.*
pub use Raising.*
pub use Postconditions.*
pub use Prim.Native.Nat.{ℕ, zero, suc, ◌+◌, ◌-◌, ◌*◌, ◌/◌, ◌%◌, ◌≤◌, ◌<◌, min, max}
pub use mathlib.Core.Path.{◌≡◌, refl, sym, ap, ◌∙◌, subst}
pub use mathlib.Core.Logic.{◌≢◌, ◌↔◌, ◌⊎◌, inl, inr}
pub use mathlib.Core.Bool.{Bool, true, false, not, ◌&&◌, ◌||◌}
pub use mathlib.Core.Option.{Option, none, some}
pub use mathlib.Core.List.{List, [], ◌∷◌, ◌++◌, map, append-nil, append_assoc}
pub use native.Mathlib.Omega.{arith}
