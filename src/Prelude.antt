-- ===== src/Prelude.antt =====
-- The names that the other modules share: the libraries', passed on, and those of the children.
pub mod Tests
pub mod Lists
pub mod Strings
pub mod Decimal
pub mod Maps
pub mod Sets
pub mod Outcome
pub use Tests.*
pub use Lists.*
pub use Strings.{
  Text, str, text_iff, text_refl, append_cancel_left, append_cancel_right, starts_with-append,
  includes-append,
}
unfoldable pub use Strings.{◌===◌, starts_with, includes, second_piece}
unfoldable pub use Decimal.{decimal}
pub use Decimal.{decimal_inj}
unfoldable pub use Maps.{lookup, insert, remove}
unfoldable pub use Sets.{contains, add, set_from}
pub use Sets.{contains-add_new, contains-add_old, add_new}
pub use Maps.{Dict, lookup-insert, lookup-remove}
pub use Prim.Native.Nat.{ℕ, zero, suc, ◌+◌, ◌-◌, ◌*◌, ◌/◌, ◌%◌, ◌^◌, ◌≤◌, ◌<◌, max}
pub use mathlib.Core.Path.{◌≡◌, refl, sym, ap, ◌∙◌, subst}
pub use mathlib.Core.Logic.{◌≢◌, ◌↔◌, ◌⊎◌, inl, inr}
pub use mathlib.Core.Bool.{Bool, true, false, ◌&&◌, ◌||◌, not}
pub use mathlib.Core.Option.{Option, none, some}
pub use mathlib.Core.List.{List, [], ◌∷◌, ◌++◌, map, append-nil, append_assoc}
pub use native.Mathlib.Omega.{arith}
