-- ===== src/Base.antt =====
-- The names that the modules share: the libraries', passed on, and those of the children, with
-- tests and the conditional (Tests), lists and counting (Lists), texts (Text), maps (Maps),
-- signed integers (Int), results of what may raise (Results) and actions, which change a state and may raise
-- (Effects).
mod Tests
mod Lists
mod Text
mod Maps
mod Effects
pub mod Int
pub mod Results
pub use Tests.*
pub use Lists.*
unfoldable pub use Text.*
unfoldable pub use Maps.*
unfoldable pub use Effects.*
pub use Prim.Native.Nat.{ℕ, zero, suc, ◌+◌, ◌-◌, ◌*◌, ◌/◌, ◌%◌, ◌≤◌, ◌<◌}
pub use Prim.Native.String.{String}
pub use mathlib.Core.Path.{◌≡◌, refl, sym, ap, subst, subst⁻¹, ◌∙◌}
pub use mathlib.Core.Logic.{◌≢◌, ◌↔◌, ◌⊎◌, inl, inr}
pub use mathlib.Core.Bool.{Bool, true, false, not, ◌&&◌, ◌||◌}
pub use mathlib.Core.Option.{Option, none, some}
pub use mathlib.Core.List.{List, [], ◌∷◌, ◌++◌, map}
pub use native.Mathlib.Omega.{arith}
pub use text.Mathlib.TextEquality.{eq_iff}
pub use text.Mathlib.TextPositions.{eq_refl}
