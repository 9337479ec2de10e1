-- ===== src/Prelude.antt =====
-- The names that the other modules share: the libraries', passed on, and those of the children.
mod Tests
mod Lists
mod Classes
mod Checks
mod Maps
mod Keyed
mod Sort
mod Order
mod Texts
mod Counts
pub use Tests.*
unfoldable pub use Lists.*
pub use Classes.*
pub use Checks.*
unfoldable pub use Maps.*
pub use Keyed.*
unfoldable pub use Sort.*
unfoldable pub use Order.*
unfoldable pub use Texts.*
unfoldable pub use Counts.*
pub use Prim.Native.Nat.{
  ℕ, Ordering, compare, zero, suc, ◌+◌, ◌-◌, ◌*◌, ◌/◌, ◌%◌, ◌^◌, ◌≤◌, ◌<◌, min, max,
}
pub use Prim.Native.String.{String}
pub use mathlib.Core.Path.{◌≡◌, refl, sym, ap, ap₂, ◌∙◌, subst}
pub use mathlib.Core.Logic.{◌≢◌, ◌↔◌, ◌⊎◌, inl, inr}
pub use mathlib.Core.Bool.{Bool, true, false, not, ◌&&◌, ◌||◌}
pub use mathlib.Core.Option.{Option, none, some}
pub use mathlib.Core.List.{List, [], ◌∷◌, ◌++◌, map}
pub use native.Mathlib.Omega.{arith}
