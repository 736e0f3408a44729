-- ===== src/Prelude.antt =====
-- Shared names: the libraries', passed on, and those of the children below. Texts are lists of code
-- points, dictionaries are association lists in insertion order.
mod Booleans
mod Lists
mod Texts
mod Dicts
mod Ints
mod Perms
mod Keys
pub use Booleans.*
pub use Lists.*
unfoldable pub use Texts.{text_eq, text_lt}
pub use Texts.*
unfoldable pub use Dicts.{lookup, insert}
pub use Dicts.*
pub use Ints.*
pub use Perms.*
pub use Keys.*
pub use Prim.Native.Nat.{ℕ, zero, suc, ◌+◌, ◌-◌, ◌*◌, ◌/◌, ◌%◌, ◌^◌, ◌≤◌, ◌<◌, min}
pub use mathlib.Core.Path.{◌≡◌, refl, sym, ap, ◌∙◌, subst}
pub use mathlib.Core.Logic.{◌≢◌, ◌↔◌, ◌⊎◌, inl, inr}
pub use mathlib.Core.Bool.{Bool, true, false, ◌&&◌, ◌||◌, not}
pub use mathlib.Core.Option.{Option, none, some}
pub use mathlib.Core.List.{
  List, [], ◌∷◌, ◌++◌, map, reverse, append_assoc, append-nil, reverse-append, reverse-reverse,
  map-append,
}
pub use native.Mathlib.Omega.{arith}
