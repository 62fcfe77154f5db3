-- ===== src/Prelude.antt =====
-- Names that the modules share: the libraries', passed on, and those of the children, which hold
-- tests on numbers, lists under native numbers, little-endian bytes, text, signed
-- integers, the operations of a vector, functions that are changed at one place, regions of a
-- memory, copies into one, and sizes that wrap.
mod Tests
mod Lists
pub mod Bytes
pub mod Text
pub mod Int
pub mod Vector
pub mod Update
pub mod Region
pub mod Copies
pub mod Wrap
pub use Tests.*
pub use Lists.*
pub use Prim.Native.Nat.{ℕ, zero, suc, ◌+◌, ◌-◌, ◌*◌, ◌/◌, ◌%◌, ◌^◌, ◌≤◌, ◌<◌, min}
pub use mathlib.Core.Path.{◌≡◌, refl, sym, ap, ◌∙◌}
pub use mathlib.Core.Logic.{◌≢◌, ◌↔◌, ◌⊎◌, inl, inr}
pub use mathlib.Core.Bool.{Bool, true, false, not, ◌&&◌, ◌||◌}
pub use mathlib.Core.Option.{Option, none, some}
pub use mathlib.Core.List.{List, [], ◌∷◌, ◌++◌, map, append-nil, append_assoc}
pub use native.Mathlib.Omega.{arith}
