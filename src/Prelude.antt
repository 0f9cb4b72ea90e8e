-- ===== src/Prelude.antt =====
-- The names that the other modules share: the libraries', passed on, and those of the children.
mod Tests
mod Lists
mod Maps
mod Text
pub mod Float
pub use Tests.*
pub use Lists.*
unfoldable pub use Maps.{update, remove}
pub use Maps.{
  lookup-update_self, lookup-update_ne, lookup-remove_self, lookup-remove_ne, remove_absent,
  update-update_self, update-lookup, keys, map_laws, All-remove, All-update, All-lookup, sum_by,
  Distinct, remove-Distinct, update-Distinct, sum_by-remove, sum_by-update, sum_by-update_new,
}
pub use Text.{Bytes, codes}
unfoldable pub use Text.{Bytes-discrete}
pub use Prim.Native.Nat.{ℕ, zero, suc, ◌+◌, ◌-◌, ◌*◌, ◌/◌, ◌%◌, ◌^◌, ◌≤◌, ◌<◌, min}
pub use mathlib.Core.Path.{◌≡◌, refl, sym, ap, ◌∙◌, subst}
pub use mathlib.Core.Logic.{◌≢◌, ◌↔◌, ◌⊎◌, inl, inr, ite, if_pos, if_neg}
pub use mathlib.Core.Bool.{Bool, true, false, ◌&&◌, ◌||◌, not}
pub use mathlib.Core.Option.{Option, none, some}
pub use mathlib.Core.List.{
  List, [], ◌∷◌, ◌++◌, map, append_assoc, append-nil, reverse-append, reverse-cons, reverse-reverse,
}
unfoldable pub use mathlib.Core.List.{lookup, flatten, reverse}
pub use native.Mathlib.Omega.{arith}
unfoldable pub use native.Mathlib.Decide.{dec_lt, ℕ_discrete}
