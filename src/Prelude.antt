-- ===== src/Prelude.antt =====
-- The names that the other modules share: the libraries', passed on, and those of the children.
mod Tests
mod Lists
mod Text
mod Decimal
mod Assoc
pub mod Action
pub mod Int
pub use Tests.*
pub use Lists.{
  length, get_elem?, length-append, any, all, All, length-map, slice_last, length-drop,
  take-append-drop, get_elem?-drop, count_by-append, drop-drop, drop-append, take_all,
  length-take_lem,
}
pub use Text.{truthy_text, truthy, or_text, includes, or_text-truthy}
unfoldable pub use Lists.{take, drop, count_by}
unfoldable pub use Text.{join}
unfoldable pub use Assoc.{lookup, insert, remove}
pub use Assoc.{lookup-insert, lookup-remove}
unfoldable pub use Decimal.{decimal, int_text}
pub use Prim.Native.Nat.{ℕ, zero, suc, ◌+◌, ◌-◌, ◌*◌, ◌/◌, ◌%◌, ◌^◌, ◌≤◌, ◌<◌, min, max}
pub use Prim.Native.String.{String}
pub use Prim.Native.String.{◌++◌ as concat}
pub use mathlib.Core.Path.{◌≡◌, refl, sym, ap, ◌∙◌}
pub use mathlib.Core.Logic.{◌≢◌, ◌↔◌, ◌⊎◌, inl, inr}
pub use mathlib.Core.Bool.{Bool, true, false, not, ◌&&◌, ◌||◌}
pub use mathlib.Core.Option.{Option, none, some}
pub use mathlib.Core.List.{List, [], ◌∷◌, ◌++◌, map}
pub use native.Mathlib.Omega.{arith}
pub use text.Mathlib.Text.{◌==◌ as str_eq}
pub use text.Mathlib.TextEquality.{eq_iff}
