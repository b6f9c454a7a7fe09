-- ===== src/Prelude.antt =====
-- The names that the other modules share: the libraries', passed on, and those of the children.
mod Tests
mod Lists
mod Int
mod Strings
pub use Tests.*
pub use Lists.*
pub use Int.{ℤ, pos, negsuc, pos_part, neg_part, sub_ℕ, ltb_ℤ, leb_ℤ, eq_ℤ, ◌≤ℤ◌, eq_ℤ→eq}
unfoldable pub use Int.{◌+ℤ◌}
pub use Strings.{Text, NoSpace, teq_refl, teq→eq, teq_iff, strip_of_NoSpace}
unfoldable pub use Strings.{
  txt, teq, is_space, lstrip, rstrip, strip, lower_char, lower, starts_with, contains, mem_text,
}
pub use Prim.Native.Nat.{ℕ, zero, suc, ◌+◌, ◌-◌, ◌*◌, ◌/◌, ◌%◌, ◌^◌, ◌≤◌, ◌<◌}
pub use mathlib.Core.Path.{◌≡◌, refl, sym, ap, ◌∙◌}
pub use mathlib.Core.Logic.{◌≢◌, ◌↔◌, ◌⊎◌, inl, inr}
pub use mathlib.Core.Bool.{Bool, true, false, not, ◌&&◌, ◌||◌}
pub use mathlib.Core.Option.{Option, none, some}
pub use mathlib.Core.List.{List, [], ◌∷◌, ◌++◌, map}
pub use native.Mathlib.Omega.{arith}
