-- ===== src/Base.antt =====
-- The names that all parts of the development share: the libraries', passed on, and the helpers of
-- the child modules.
mod Tests
mod Arrays
mod Words
mod Ranges
mod Bytes
mod Lists
mod Texts
pub mod Bits
pub mod Decimal
pub use Tests.*
pub use Arrays.*
unfoldable pub use Arrays.{slice}
pub use Words.*
pub use Ranges.*
pub use Bytes.*
pub use Lists.*
pub use Texts.*
unfoldable pub use Ranges.{each_of}
pub use Prim.Native.Nat.{ℕ, zero, suc, ◌+◌, ◌-◌, ◌*◌, ◌/◌, ◌%◌, ◌^◌, ◌≤◌, ◌<◌, bit_and, bit_or, min}
pub use mathlib.Core.Path.{◌≡◌, refl, sym, ap, ◌∙◌, subst}
pub use mathlib.Core.Logic.{◌≢◌, ◌⊎◌, inl, inr}
pub use mathlib.Core.Bool.{Bool, true, false, not, ◌&&◌, ◌||◌}
pub use mathlib.Core.Option.{Option, none, some}
pub use mathlib.Core.List.{List, [], ◌∷◌, ◌++◌}
pub use native.Mathlib.Omega.{arith}
