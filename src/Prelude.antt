-- ===== src/Prelude.antt =====
-- The names that the other modules share: the libraries', passed on, and those of five children.
mod Tests
mod Lists
mod Texts
mod Dicts
mod Ints
pub use Ints.{ℤ, pos, negsuc, negated, IsBetween, IsAtLeast}
pub use Tests.*
pub use Lists.*
pub use Texts.{
  codes, contains, difference, is_space, lstrip, starts_with, text_eq, is_line_end, cons_head,
  text_leb, insert_by, sort_by, has_duplicate,
}
unfoldable pub use Texts.{strip, is_infix, lines_after, split_lines}
pub use Dicts.{Dict, lookup-put, lookup-without, lookup-put_ne, lookup-put_self, lookup-without_ne}
unfoldable pub use Dicts.{lookup, put, without, exists}
pub use Prim.Native.Nat.{ℕ, zero, suc, ◌+◌, ◌-◌, ◌*◌, ◌/◌, ◌%◌, ◌^◌, ◌≤◌, ◌<◌, min}
pub use Prim.Native.String.{String}
pub use mathlib.Core.Path.{◌≡◌, refl, sym, ap, ◌∙◌, subst}
pub use mathlib.Core.Logic.{◌≢◌, ◌↔◌, ◌⊎◌, inl, inr}
pub use mathlib.Core.Bool.{Bool, true, false, not, ◌&&◌, ◌||◌}
pub use mathlib.Core.Option.{Option, none, some}
pub use mathlib.Core.List.{List, [], ◌∷◌, ◌++◌, map}
pub use native.Mathlib.Omega.{arith}
pub use text.Mathlib.Text.{◌==◌ as str_eq}
pub use text.Mathlib.TextEquality.{eq_iff}
pub use text.Mathlib.TextPositions.{eq_refl}
