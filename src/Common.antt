-- ===== src/Common.antt =====
-- The names that the other modules share: the libraries', passed on, and those of the children:
-- tests on numbers and texts, sets and dictionaries of texts, orders and sorting, results.
mod Tests
mod Results
mod Sets
mod Dicts
mod Orders
mod Int
mod Members
mod SortedSets
mod JsonValue
mod Texts
mod Indexed
unfoldable pub use Tests.*
unfoldable pub use Results.*
unfoldable pub use Sets.*
unfoldable pub use Dicts.*
unfoldable pub use Orders.*
unfoldable pub use Int.*
pub use Members.*
unfoldable pub use SortedSets.*
unfoldable pub use JsonValue.*
unfoldable pub use Texts.*
unfoldable pub use Indexed.*
pub use Prim.Native.Nat.{ℕ, zero, suc, ◌+◌, ◌-◌, ◌*◌, ◌/◌, ◌%◌, ◌^◌, ◌≤◌, ◌<◌}
pub use Prim.Native.String.{String}
pub use mathlib.Core.Path.{◌≡◌, refl, sym, ap, subst, ◌∙◌}
pub use mathlib.Core.Logic.{◌≢◌, ◌↔◌, ◌⊎◌, inl, inr}
pub use mathlib.Core.Bool.{Bool, true, false, false≢true, not, ◌&&◌, ◌||◌}
pub use mathlib.Core.Option.{Option, none, some}
pub use mathlib.Core.List.{List, [], ◌∷◌, ◌++◌, map, Memᴰ}
pub use native.Mathlib.Omega.{arith}
pub use text.Mathlib.Text.{◌==◌}
pub use text.Mathlib.TextEquality.{eq_iff}
