-- ===== src/Prelude.antt =====
-- The names that the other modules share: the libraries', passed on, and those of the children.
mod Tests
mod Lists
mod Equality
pub mod Int
pub use Tests.{ltb, leb, if◌then◌else◌, ltb→lt, lt→ltb, leb→le, le→leb, Bool-cases, Option-cases}
pub use Tests.{option_get_or, &&-true, not_true→false, not-not, &&-false, le→ltb_false}
unfoldable pub use Lists.*
pub use Equality.{
  Eq, ◌==◌, nat_eq, text_eq, option_eq, eq_refl, eq_sym, eq→path, ne→false, contains,
}
unfoldable pub use Equality.{bytes_beq}
pub use Prim.Native.Nat.{ℕ, zero, suc, ◌+◌, ◌-◌, ◌*◌, ◌/◌, ◌%◌, ◌^◌, ◌≤◌, ◌<◌}
pub use Prim.Native.String.{String}
pub use mathlib.Core.Path.{◌≡◌, refl, sym, ap, subst, ◌∙◌}
pub use mathlib.Core.Logic.{◌≢◌, ◌↔◌, ◌⊎◌, inl, inr}
pub use mathlib.Core.Bool.{Bool, true, false, ◌&&◌, ◌||◌, not}
pub use mathlib.Core.Option.{Option, none, some}
pub use mathlib.Core.List.{List, [], ◌∷◌, ◌++◌, map, reverse}
pub use native.Mathlib.Omega.{arith}
