-- ===== src/Base.antt =====
-- The names that the other modules share: the libraries', passed on, and those of the children.
mod Tests
mod Lists
mod Text
mod Sort
mod Seen
mod Keys
mod Orders
mod Words
pub mod Floats
pub mod Int
pub mod Time
mod Results
pub use Results.{Result, ok, err, ◌>>=◌, ◌>>◌, fail_if, Result-cases}
pub use Tests.*
pub use Lists.*
unfoldable pub use Text.*
unfoldable pub use Sort.*
unfoldable pub use Seen.*
pub use Orders.*
pub use Keys.*
unfoldable pub use Words.*
pub use Prim.Native.Nat.{ℕ, zero, suc, ◌+◌, ◌-◌, ◌*◌, ◌/◌, ◌%◌, ◌^◌, ◌≤◌, ◌<◌, min}
pub use mathlib.Core.Path.{◌≡◌, refl, sym, ap, ◌∙◌, subst}
pub use mathlib.Core.Logic.{◌≢◌, ◌↔◌, ◌⊎◌, inl, inr}
pub use mathlib.Core.Bool.{Bool, true, false, not, ◌&&◌, ◌||◌}
pub use mathlib.Core.Option.{Option, none, some}
pub use mathlib.Core.List.{List, [], ◌∷◌, ◌++◌, map}
pub use native.Mathlib.Omega.{arith}
