-- ===== src/Base.antt =====
-- The names that the modules of this library share: those of the libraries, passed on, and the
-- helpers of the children (Boolean tests, lists over the native numbers, memory, loops, runs).
mod Tests
mod Lists
mod Memory
mod Loops
mod Decimal
mod Text
mod Bytes
mod Strings
mod Options
pub mod Bits
pub mod Run
pub mod Int
pub use Tests.*
pub use Lists.*
pub use Memory.*
unfoldable pub use Loops.{count_up}
pub use Loops.{count_up-keeps}
pub use Decimal.*
pub use Text.*
pub use Bytes.*
pub use Strings.*
pub use Options.*
pub use Prim.Native.String.{String}
pub use Prim.Native.Nat.{ℕ, zero, suc, ◌+◌, ◌-◌, ◌*◌, ◌/◌, ◌%◌, ◌^◌, ◌≤◌, ◌<◌}
pub use mathlib.Core.Path.{◌≡◌, refl, sym, ap, ap₂, ◌∙◌, fun_ext}
pub use mathlib.Core.Logic.{◌≢◌, ◌↔◌, ◌⊎◌, inl, inr}
pub use mathlib.Core.Bool.{Bool, true, false, not, ◌&&◌, ◌||◌}
pub use mathlib.Core.Option.{Option, none, some}
pub use mathlib.Core.List.{List, [], ◌∷◌, ◌++◌, map, map-append, append-nil, append_assoc}
pub use native.Mathlib.Omega.{arith}
