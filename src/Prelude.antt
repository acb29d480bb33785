-- ===== src/Prelude.antt =====
-- The names that the other modules share: the libraries', passed on, and those of the children.
pub mod Lists
pub mod Members
pub mod Sorting
pub mod Bytes
pub mod Search
mod Tests
unfoldable pub use Tests.*
pub use Lists.{length, length-append, any, all, All, All-append, All-mono}
unfoldable pub use Sorting.{elem, dedupe, sort_by}
pub use Sorting.{
  All-dedupe, All-sort_by, IsDistinct, dedupe-IsDistinct, sort_by-IsSorted, sort_by-IsDistinct,
  IsSorted, sort_by-perm, length-sort_by,
}
pub use Members.{
  any→mem, any-of_mem, not_any, any-false, All→mem, All-of_mem, elem→mem, elem-of_mem, not_elem,
  elem-false, mem-append_left, mem-append_right, mem-append_cases,
}
pub use Bytes.{Text, trim_space-NoSpace, NoSpace}
unfoldable pub use Bytes.{trim_space}
pub use Prim.Native.Nat.{ℕ, zero, suc, ◌+◌, ◌-◌, ◌*◌, ◌/◌, ◌%◌, ◌^◌, ◌≤◌, ◌<◌, min}
pub use Prim.Native.String.{String}
pub use mathlib.Core.Path.{◌≡◌, refl, sym, ap, ap₂, ◌∙◌, subst}
pub use mathlib.Core.Logic.{◌≢◌, ◌↔◌, ◌⊎◌, inl, inr}
pub use mathlib.Core.Bool.{Bool, true, false, not, ◌&&◌, ◌||◌}
pub use mathlib.Core.Option.{Option, none, some}
pub use mathlib.Core.List.{List, [], ◌∷◌, ◌++◌, map, Memᴰ, Perm}
pub use native.Mathlib.Omega.{arith}
unfoldable pub use Search.{first, update_where, delete_where, select_where, take, drop}
pub use Search.{
  first-true, first→mem, first-append, update_where-mem, append-mem_cases, first-update_where,
  first-delete_where, delete_where-mem, length-take-le, first-append_row, first-any,
  select_where-All, select_where-append, All-take, All-drop,
}
