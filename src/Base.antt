-- ===== src/Base.antt =====
-- What every part shares: the library's names, passed on, tests on numbers and lists measured by
-- native numbers, signed 64-bit counters, and the result of a fallible function.
mod Tests
mod Lists
mod Signed
mod Outcome
mod Clock
mod Sorting
pub use Tests.*
pub use Lists.*
pub use Signed.*
pub use Outcome.*
pub use Clock.*
unfoldable pub use Sorting.*
pub use Prim.Native.Nat.{ℕ, zero, suc, ◌+◌, ◌-◌, ◌*◌, ◌/◌, ◌%◌, ◌^◌, ◌≤◌, ◌<◌}
pub use Prim.Native.String.{String}
pub use mathlib.Core.Path.{◌≡◌, refl, sym, ap, ◌∙◌}
pub use mathlib.Core.Logic.{◌≢◌, ◌↔◌, ◌⊎◌, inl, inr}
pub use mathlib.Core.Bool.{Bool, true, false, not, xor, ◌&&◌, ◌||◌}
pub use mathlib.Core.Option.{Option, none, some}
pub use mathlib.Core.List.{List, [], ◌∷◌, ◌++◌, map}
pub use native.Mathlib.Omega.{arith}
