-- ===== src/Prelude.antt =====
-- The names that the other modules share: the libraries', passed on, the Boolean tests on native
-- numbers, signed integers, and the results of fallible code.
mod Tests
pub mod Int
mod Lists
mod Rows
pub mod Bits
pub mod Map
pub use Tests.*
unfoldable pub use Tests.{is_none}
pub use Lists.{length, length-append, take}
unfoldable pub use Lists.{insert_by, sort_by}
unfoldable pub use Rows.{count, find_first, select, update_where, delete_where}
pub use Rows.{
  bit, count-update_where, count-delete_where, count-delete_where_le, count-change, count-shrink,
  find_first-holds, find_first-narrow, find_first-delete_where, find_first-update_where,
  find_first-write, find_first-elsewhere, update_where-update_where, update_where-absent,
  count-absent,
}
pub use Prim.Native.Nat.{ℕ, zero, suc, ◌+◌, ◌-◌, ◌*◌, ◌/◌, ◌%◌, ◌^◌, ◌≤◌, ◌<◌}
pub use mathlib.Core.Path.{◌≡◌, refl, sym, ap, ◌∙◌}
pub use mathlib.Core.Logic.{◌≢◌, ◌↔◌, ◌⊎◌, inl, inr}
pub use mathlib.Core.Bool.{Bool, true, false, ◌&&◌, ◌||◌, not}
pub use mathlib.Core.Option.{Option, none, some}
pub use mathlib.Core.List.{List, [], ◌∷◌, ◌++◌, map}
pub use native.Mathlib.Omega.{arith}
