-- ===== src/Base.antt =====
-- The names that the other modules share: the libraries', passed on, and those of the children.
mod Tests
mod Lists
mod Decimal
mod Effects
mod Prefix
mod Split
mod Order
pub use Tests.*
pub use Lists.*
unfoldable pub use Decimal.{show, number}
pub use Decimal.{number-show, show-injective}
unfoldable pub use Prefix.{strip_prefix}
pub use Prefix.{strip_prefix-template}
unfoldable pub use Split.{includes, split}
pub use Split.{push, split-includes, split-cons_append}
unfoldable pub use Order.{insert, order_by}
pub use Order.{
  take, drop, take-append_drop, length-take, drop_of_short, IsOrdered, order_by-Perm,
  order_by-IsOrdered, mem-Perm, IsPage, take-IsPage, keep-Perm, length-Perm,
}
pub use Effects.*
pub use Prim.Native.Nat.{ℕ, zero, suc, ◌+◌, ◌-◌, ◌*◌, ◌/◌, ◌≤◌, ◌<◌}
pub use Prim.Native.String.{String}
pub use mathlib.Core.Path.{◌≡◌, refl, sym, ap, ◌∙◌, subst}
pub use mathlib.Core.Logic.{◌≢◌, ◌↔◌, ◌⊎◌, inl, inr}
pub use mathlib.Core.Bool.{Bool, true, false, ◌&&◌, ◌||◌, not}
pub use mathlib.Core.Option.{Option, none, some}
pub use mathlib.Core.List.{List, [], ◌∷◌, ◌++◌, map, append_assoc, append-nil}
pub use native.Mathlib.Omega.{arith}
unfoldable pub use native.Mathlib.Decide.{ℕ_discrete}
pub use text.Mathlib.Text.{◌==◌ as str_eq}
pub use text.Mathlib.TextEquality.{eq_iff}
pub use text.Mathlib.TextPositions.{eq_refl}
