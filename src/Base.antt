-- ===== src/Base.antt =====
-- The names that the modules share: the libraries' names, passed on, Boolean tests on the native
-- numbers, lists measured by them, Go's errors as values and effects that return them.
mod Tests
mod Lists
mod Effects
mod Text
mod Frame
mod Split
mod Integers
mod Double
mod Maps
unfoldable pub use Tests.*
unfoldable pub use Lists.*
unfoldable pub use Effects.*
unfoldable pub use Text.*
pub use Frame.*
unfoldable pub use Split.*
pub use Double.*
unfoldable pub use Maps.*
unfoldable pub use Integers.*
pub use Prim.Native.Nat.{ℕ, zero, suc, ◌+◌, ◌-◌, ◌*◌, ◌/◌, ◌%◌, ◌^◌, ◌≤◌, ◌<◌}
pub use Prim.Native.String.{String, ◌++◌ as ◌<>◌}
pub use mathlib.Core.Path.{◌≡◌, refl, sym, ap, ◌∙◌, fun_ext}
pub use mathlib.Core.Logic.{◌≢◌, ◌↔◌, ◌⊎◌, inl, inr}
pub use mathlib.Core.Bool.{Bool, true, false, not, ◌&&◌, ◌||◌}
pub use mathlib.Core.Option.{Option, none, some}
pub use mathlib.Core.List.{List, [], ◌∷◌, ◌++◌, map}
pub use native.Mathlib.Omega.{arith}
pub use text.Mathlib.Text.{◌==◌}
pub use text.Mathlib.TextEquality.{eq_iff}
