-- ===== src/Base.antt =====
-- The names that every part shares: the libraries', passed on, and those of the children, which
-- hold the Boolean tests, lists and maps over native numbers, bytes and results.
mod Tests
mod Results
mod Lists
mod Equality
mod Octets
mod Membership
pub mod Dict
pub mod Float
pub mod Sorting
pub mod Decimal
pub use Tests.*
pub use Results.*
pub use Lists.*
pub use Membership.*
unfoldable pub use Equality.*
unfoldable pub use Octets.*
pub use Prim.Native.Nat.{ℕ, zero, suc, ◌+◌, ◌-◌, ◌*◌, ◌/◌, ◌%◌, ◌^◌, ◌≤◌, ◌<◌, min, max}
pub use Prim.Native.String.{String}
pub use mathlib.Core.Path.{◌≡◌, refl, sym, ap, ◌∙◌}
pub use mathlib.Core.Logic.{◌≢◌, ◌↔◌, ◌⊎◌, inl, inr}
pub use mathlib.Core.Bool.{Bool, true, false, not, ◌&&◌, ◌||◌}
pub use mathlib.Core.Option.{Option, none, some}
pub use mathlib.Core.List.{List, [], ◌∷◌, ◌++◌, map}
pub use native.Mathlib.Omega.{arith}
