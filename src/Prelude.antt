-- ===== src/Prelude.antt =====
-- The names that the components share: the libraries' names passed on, Boolean tests, Go's maps,
-- Go's text functions and predicates over lists.
pub mod Tests
pub mod Maps
pub mod Text
pub mod Lists
pub mod Results
pub mod Sort
pub mod TextOrder
pub mod Ints
pub mod Hex
unfoldable pub use Maps.*
pub use Tests.*
pub use Lists.{All, All-map_pointwise, length}
unfoldable pub use Lists.{any}
pub use Results.*
pub use Prim.Native.Nat.{ℕ, zero, suc, ◌+◌, ◌-◌, ◌*◌, ◌/◌, ◌%◌, ◌^◌, ◌≤◌, ◌<◌, min}
pub use Prim.Native.String.{String}
pub use mathlib.Core.Path.{◌≡◌, refl, sym, ap, ◌∙◌}
pub use mathlib.Core.Logic.{◌≢◌, ◌↔◌, ◌⊎◌, inl, inr}
pub use mathlib.Core.Bool.{Bool, true, false, not, ◌&&◌, ◌||◌}
pub use mathlib.Core.Option.{Option, none, some}
pub use mathlib.Core.List.{List, [], ◌∷◌, ◌++◌, map}
pub use native.Mathlib.Omega.{arith}
