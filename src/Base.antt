-- ===== src/Base.antt =====
-- The names that the other modules share: numbers, tests, lists, integers and fallible results.
mod Tests
pub mod Bits
mod Lists
mod Results
pub mod Int
unfoldable pub use Tests.{all_below}
pub use Tests.*
pub use Lists.*
pub use Results.*
pub use uwasm_vm.Base.Results.Fault.{assertion, undefined}
pub use Prim.Native.Nat.{ℕ, zero, suc, ◌+◌, ◌-◌, ◌*◌, ◌/◌, ◌%◌, ◌^◌, ◌≤◌, ◌<◌}
pub use Prim.Native.Nat.{bit_and, bit_or, bit_xor}
pub use mathlib.Core.Path.{◌≡◌, refl, sym, ap, ◌∙◌}
pub use mathlib.Core.Logic.{◌≢◌, ◌↔◌, ◌⊎◌, inl, inr}
pub use mathlib.Core.Bool.{Bool, true, false, not, ◌&&◌, ◌||◌}
pub use mathlib.Core.Option.{Option, none, some}
pub use mathlib.Core.List.{List, [], ◌∷◌, ◌++◌, map}
pub use native.Mathlib.Omega.{arith}
