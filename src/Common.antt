-- ===== src/Common.antt =====
-- What the other modules share: names of the libraries, Boolean tests, lists, byte strings and
-- the result of code that may throw.
mod Choice
mod Sequence
mod Text
mod Int
mod Fallible
pub use Int.*
pub use Choice.*
pub use Sequence.*
pub use Text.*
unfoldable pub use Text.{bytes_eq, bytes_lt}
pub use Fallible.*
pub use Prim.Native.Nat.{ℕ, zero, suc, ◌+◌, ◌-◌, ◌*◌, ◌/◌, ◌%◌, ◌^◌, ◌≤◌, ◌<◌}
pub use mathlib.Core.Path.{◌≡◌, refl, sym, ap, ◌∙◌, subst}
pub use mathlib.Core.Logic.{◌≢◌, ◌↔◌, ◌⊎◌, inl, inr}
pub use mathlib.Core.Bool.{Bool, true, false, not, ◌&&◌, ◌||◌}
pub use mathlib.Core.Option.{Option, none, some}
pub use mathlib.Core.List.{List, [], ◌∷◌, ◌++◌, map, append_assoc, append-nil}
pub use native.Mathlib.Omega.{arith}
