-- ===== src/Prelude.antt =====
-- The names that the other modules share: the libraries', passed on, and those of the children.
mod Tests
mod Lists
mod Strings
mod Keys
mod HashMap
mod TextLaws
mod Decimal
mod Pieces
pub use Tests.*
pub use Lists.*
pub use TextLaws.*
pub use Pieces.*
unfoldable pub use Decimal.*
unfoldable pub use Strings.*
unfoldable pub use HashMap.*
pub use Keys.{Eq, nat_eq, text_eq_instance, text_eq_iff, text_eq_refl, eq_of_text_eq}
pub use Prim.Native.Nat.{ℕ, zero, suc, ◌+◌, ◌-◌, ◌*◌, ◌/◌, ◌%◌, ◌^◌, ◌≤◌, ◌<◌}
pub use mathlib.Core.Path.{◌≡◌, refl, sym, ap, ◌∙◌, subst}
pub use mathlib.Core.Logic.{◌≢◌, ◌↔◌, ◌⊎◌, inl, inr}
pub use mathlib.Core.Bool.{Bool, true, false, not, ◌&&◌, ◌||◌}
pub use mathlib.Core.Option.{Option, none, some}
pub use mathlib.Core.List.{List, [], ◌∷◌, ◌++◌, map}
pub use native.Mathlib.Omega.{arith}
