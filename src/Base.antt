-- ===== src/Base.antt =====
-- Names that every module shares: the libraries' names passed on, Boolean tests, lists over the
-- native numbers, Go strings as lists of code points, and Go's `(value, error)` results.
mod Tests
mod Lists
mod Strings
mod Results
mod Maps
mod Trimming
mod Splitting
mod Order
mod Sorting
mod Paths
pub use Tests.*
pub use Lists.*
unfoldable pub use Strings.*
pub use Results.*
pub use Trimming.*
pub use Splitting.*
pub use Order.*
unfoldable pub use Paths.*
unfoldable pub use Sorting.*
unfoldable pub use Maps.*
pub use Prim.Native.Nat.{ℕ, zero, suc, ◌+◌, ◌-◌, ◌*◌, ◌≤◌, ◌<◌}
pub use mathlib.Core.Path.{◌≡◌, refl, sym, ap, ap₂, subst, ◌∙◌, ◌≡⟨◌⟩◌, ◌∎}
pub use mathlib.Core.Logic.{◌≢◌, ◌↔◌, ◌⊎◌, inl, inr}
pub use mathlib.Core.Bool.{Bool, true, false, not, ◌&&◌, ◌||◌}
pub use mathlib.Core.Option.{Option, none, some}
pub use mathlib.Core.List.{List, [], ◌∷◌, ◌++◌, map, append-nil, append_assoc, map-append}
pub use native.Mathlib.Omega.{arith}
