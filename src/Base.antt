-- ===== src/Base.antt =====
-- Names that the modules of this library share: the libraries', passed on, and those of the
-- children, which hold Boolean tests, lists under native indices, outcomes of Go calls and the
-- Go maps.
mod Tests
mod Lists
mod Outcome
pub mod Exec
mod GoMap
mod Words
mod Slices
mod GoSlices
pub use Tests.*
pub use Lists.*
pub use Outcome.*
pub use GoMap.{held, lookup-insert, insert-insert}
unfoldable pub use GoMap.{lookup, insert}
pub use Words.*
pub use Slices.*
pub use GoSlices.{copy_at-zeros, slice-take, slice-drop, slice-append}
unfoldable pub use GoSlices.{slice, copy_at}
pub use Prim.Native.Nat.{ℕ, zero, suc, ◌+◌, ◌-◌, ◌*◌, ◌/◌, ◌%◌, ◌^◌, ◌≤◌, ◌<◌, min, max, bit_or}
pub use mathlib.Core.Path.{◌≡◌, refl, sym, ap, ◌∙◌}
pub use mathlib.Core.Logic.{◌≢◌, ◌↔◌, ◌⊎◌, inl, inr}
pub use mathlib.Core.Bool.{Bool, true, false, not, ◌&&◌, ◌||◌}
pub use mathlib.Core.Option.{Option, none, some}
pub use mathlib.Core.List.{List, [], ◌∷◌, ◌++◌, append-nil, append_assoc}
pub use native.Mathlib.Omega.{arith}
