-- ===== src/Base.antt =====
-- The names that the other modules share: those of the libraries, the Boolean tests on numbers,
-- lists measured by native numbers, and the outcome of a Go call.
mod Booleans
mod Lists
mod Outcomes
mod Integers
pub mod Sort
pub mod Exec
pub mod Family
pub use Booleans.*
pub use Lists.*
pub use Integers.*
pub use Outcomes.*
pub use Prim.Native.Nat.{ℕ, zero, suc, ◌+◌, ◌-◌, ◌*◌, ◌/◌, ◌%◌, ◌^◌, ◌≤◌, ◌<◌, compare, min, max}
pub use Prim.Native.Nat.{Ordering}
pub use Prim.Native.String.{String}
pub use mathlib.Core.Path.{◌≡◌, refl, sym, ap, ◌∙◌}
pub use mathlib.Core.Logic.{◌≢◌, ◌↔◌, ◌⊎◌, inl, inr}
pub use mathlib.Core.Bool.{Bool, true, false, not, ◌&&◌, ◌||◌}
pub use mathlib.Core.Option.{Option, none, some}
pub use mathlib.Core.List.{List, [], ◌∷◌, ◌++◌, map, reverse, append-nil, append_assoc, map-append}
pub use native.Mathlib.Omega.{arith}
unfoldable pub use native.Mathlib.Decide.{ℕ_discrete}
