-- ===== src/Prelude.antt =====
-- The names that the other modules share: the libraries', passed on, and those of the children.
mod Tests
mod Int
mod Lists
mod Maps
mod Text
mod Clock
mod Results
mod Counting
mod Decimal
pub use Int.*
pub use Results.*
pub use Text.*
pub use Counting.*
pub use Clock.*
pub use Lists.*
pub use Tests.{ltb, leb, ◌==◌, if◌then◌else◌, Bool-cases, Option-cases, ite_ind, if_ind, some_inj}
unfoldable pub use Tests.{dec_string}
unfoldable pub use Decimal.{itoa}
unfoldable pub use Text.{is_blank}
unfoldable pub use Clock.{sub_time}
unfoldable pub use Lists.{dec_In}
unfoldable pub use Int.{◌+ℤ◌, ◌-ℤ◌, wrap_at}
unfoldable pub use Maps.{lookup, insert, delete}
pub use Maps.{
  Map, HasUniqueKeys, lookup-insert, lookup-insert_self, lookup-insert_ne, lookup-delete,
  delete-insert_self, lookup-insert_inv, entries_found, insert-HasUniqueKeys, delete-HasUniqueKeys,
}
pub use Prim.Native.Nat.{ℕ, zero, suc, ◌+◌, ◌-◌, ◌*◌, ◌/◌, ◌%◌, ◌^◌, ◌≤◌, ◌<◌}
pub use Prim.Native.String.{String}
pub use mathlib.Core.Path.{◌≡◌, refl, sym, ap, subst, ◌∙◌}
pub use mathlib.Core.Logic.{◌≢◌, ◌↔◌, ◌⊎◌, inl, inr, ite, if_pos, if_neg}
pub use mathlib.Core.Bool.{Bool, true, false, not, ◌&&◌, ◌||◌}
pub use mathlib.Core.Option.{Option, none, some}
pub use mathlib.Core.List.{List, [], ◌∷◌, ◌++◌, map}
pub use native.Mathlib.Omega.{arith}
unfoldable pub use native.Mathlib.Decide.{ℕ_discrete}
