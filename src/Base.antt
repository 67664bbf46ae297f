-- ===== src/Base.antt =====
-- The names that the other modules share: the libraries' passed on, Boolean tests, lists measured
-- by native numbers, equality of keys, texts as bytes, and Rust's `HashMap` and `HashSet`.
mod Tests
mod Lists
mod KeyEq
mod Order
pub mod Map
pub mod Set
pub mod Sort
pub mod Results
pub mod Sample
pub use Tests.*
pub use Lists.*
pub use KeyEq.*
pub use Order.*
pub use Prim.Native.Nat.{ℕ, zero, suc, ◌+◌, ◌-◌, ◌*◌, ◌/◌, ◌%◌, ◌^◌, ◌≤◌, ◌<◌}
pub use mathlib.Core.Path.{◌≡◌, refl, sym, ap, subst, ◌∙◌}
pub use mathlib.Core.Logic.{◌≢◌, ◌↔◌, ◌⊎◌, inl, inr}
pub use mathlib.Core.Bool.{Bool, true, false, not, ◌&&◌, ◌||◌}
pub use mathlib.Core.Option.{Option, none, some}
pub use mathlib.Core.List.{List, [], ◌∷◌, ◌++◌, map}
pub use native.Mathlib.Omega.{arith}
