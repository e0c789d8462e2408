-- ===== src/Common.antt =====
-- The names that every part shares: the libraries', passed on, and those of the children below.
mod Tests
mod Lists
mod Maps
mod Distinct
mod Outcome
mod Bytes
mod Hex
mod Base64
mod Signed
mod Clock
pub use Prim.Native.Nat.{ℕ, zero, suc, ◌+◌, ◌-◌, ◌*◌, ◌/◌, ◌%◌, ◌^◌, ◌≤◌, ◌<◌}
pub use Prim.Native.String.{String}
pub use mathlib.Core.Path.{◌≡◌, refl, sym, ap, subst, ◌∙◌}
pub use mathlib.Core.Logic.{◌≢◌, ◌↔◌, ◌⊎◌, inl, inr}
pub use mathlib.Core.Bool.{Bool, true, false, not, ◌&&◌, ◌||◌}
pub use mathlib.Core.Option.{Option, none, some}
pub use mathlib.Core.List.{List, [], ◌∷◌, ◌++◌, map, append_assoc, append-nil}
pub use native.Mathlib.Omega.{arith}
pub use Tests.*
pub use Lists.*
pub use Distinct.*
pub use Outcome.*
unfoldable pub use Maps.*
unfoldable pub use Bytes.*
unfoldable pub use Hex.*
unfoldable pub use Base64.*
unfoldable pub use Signed.*
pub use Clock.*
