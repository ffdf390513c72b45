-- ===== src/Prelude.antt =====
-- The names that every component shares: the libraries', passed on, and those of the children.
mod Tests
mod Lists
mod Channel
mod Int
mod Sort
mod Keys
pub use Tests.*
pub use Lists.*
pub use Int.*
pub use Keys.*
pub use Sort.{
  length-order_by, Absent, Distinct, Absent-order_by, Distinct-order_by, Absent-get_elem?,
  Distinct-get_elem?, get_elem?_total,
}
unfoldable pub use Sort.{insert_by, order_by}
pub use Channel.{length-offer, offer-full}
unfoldable pub use Channel.{offer}
pub use Prim.Native.Nat.{ℕ, zero, suc, ◌+◌, ◌-◌, ◌*◌, ◌/◌, ◌%◌, ◌^◌, ◌≤◌, ◌<◌, min}
pub use mathlib.Core.Path.{◌≡◌, refl, sym, ap, ◌∙◌, subst}
pub use mathlib.Core.Logic.{◌≢◌, ◌↔◌, ◌⊎◌, inl, inr}
pub use mathlib.Core.Bool.{Bool, true, false, not, ◌&&◌, ◌||◌}
pub use mathlib.Core.Option.{Option, none, some}
pub use mathlib.Core.List.{List, [], ◌∷◌, ◌++◌, map}
pub use native.Mathlib.Omega.{arith}
pub use Prim.Native.String.{String}
