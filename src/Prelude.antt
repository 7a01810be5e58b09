-- ===== src/Prelude.antt =====
-- The names that the other modules share: the libraries', passed on, and those of the children:
-- Boolean tests, decidable equality as an interface, lists, results and association lists.
pub mod Tests
pub mod Equality
pub mod Lists
pub mod Results
pub mod Pushes
pub mod Distinct
pub mod Maps
pub mod Int
pub mod Machine
pub mod Decimal
pub mod Only
pub mod Order
pub mod Sort
pub mod Perms
pub use Prim.Native.Nat.{ℕ, zero, suc, ◌+◌, ◌-◌, ◌*◌, ◌/◌, ◌%◌, ◌^◌, ◌≤◌, ◌<◌}
pub use Prim.Native.String.{String}
pub use mathlib.Core.Path.{◌≡◌, refl, sym, ap, ◌∙◌}
pub use mathlib.Core.Logic.{◌≢◌, ◌↔◌, ◌⊎◌, inl, inr}
pub use mathlib.Core.Bool.{Bool, true, false, not, ◌&&◌, ◌||◌}
pub use mathlib.Core.Option.{Option, none, some}
pub use mathlib.Core.List.{List, [], ◌∷◌, ◌++◌, map, Memᴰ}
pub use native.Mathlib.Omega.{arith}
pub use Tests.*
pub use Equality.*
pub use Lists.*
pub use Results.*
pub use Pushes.*
pub use Distinct.*
pub use Machine.*
pub use Only.*
pub use Order.*
pub use Sort.*
pub use Perms.*
unfoldable pub use Maps.*
