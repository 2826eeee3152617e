-- ===== src/Base.antt =====
-- The names that the other modules share: those of the libraries, passed on, and the tests, lists
-- and texts of the children.
mod Tests
mod Lists
pub mod Text
pub mod Dict
pub mod Result
pub mod Yields
pub use Tests.*
pub use Lists.*
pub use Prim.Native.Nat.{ℕ, zero, suc, ◌+◌, ◌-◌, ◌*◌, ◌/◌, ◌%◌, ◌≤◌, ◌<◌}
pub use mathlib.Core.Path.{◌≡◌, refl, sym, ap, ◌∙◌, subst}
pub use mathlib.Core.Logic.{◌≢◌, ◌↔◌, ◌⊎◌, inl, inr}
pub use mathlib.Core.Bool.{Bool, true, false, not, ◌&&◌, ◌||◌}
pub use mathlib.Core.Option.{Option, none, some}
pub use mathlib.Core.List.{List, [], ◌∷◌, ◌++◌, append-nil, append_assoc}
unfoldable pub use mathlib.Core.List.{map}
pub use native.Mathlib.Omega.{arith}

-- The UTF-8 bytes of a `str`, or the bytes of a `[u8]`.
abbrev pub Text : Type 0
Text = List ℕ
