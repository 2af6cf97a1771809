-- ===== src/Prelude.antt =====
-- The names that the modules of this library share: the libraries', passed on, and those of the
-- children (Boolean tests, lists over native numbers, maps with number keys, outcomes of calls).
mod Tests
mod Lists
mod Maps
pub mod Distinct
pub use Tests.{
  ltb, leb, ◌==◌, if◌then◌else◌, ltb→lt, lt→ltb, leb→le, le→leb, ==_iff, ==_refl, tests, Bool-cases,
  Option-cases, Bytes, bytes_equal→eq, bytes_equal_refl,
}
unfoldable pub use Tests.{bytes_equal}
pub use Lists.*
pub use Maps.{
  Elem, IsRange, Map, IsUnique, lookup-insert, lookup-insert_self, lookup-insert_ne,
  insert-IsUnique, lookup→Elem, Elem→lookup,
}
unfoldable pub use Maps.{lookup, insert, delete, keys}
pub use Prim.Native.Nat.{ℕ, zero, suc, ◌+◌, ◌-◌, ◌*◌, ◌/◌, ◌%◌, ◌^◌, ◌≤◌, ◌<◌}
pub use mathlib.Core.Path.{◌≡◌, refl, sym, ap, ap₂, ◌∙◌, subst}
pub use mathlib.Core.Logic.{◌≢◌, ◌↔◌, ◌⊎◌, inl, inr}
pub use mathlib.Core.Bool.{Bool, true, false, not, ◌&&◌, ◌||◌}
pub use mathlib.Core.Option.{Option, none, some}
pub use mathlib.Core.List.{List, [], ◌∷◌, ◌++◌, map, reverse}
pub use native.Mathlib.Omega.{arith}
