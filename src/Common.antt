-- ===== src/Common.antt =====
-- Names that the modules share: the libraries', passed on, and those of the children: lists,
-- dictionaries keyed by text (Python's `dict[str, V]`) and Boolean tests.
mod Tests
mod Dicts
mod Lists
pub use Tests.*
unfoldable pub use Dicts.*
pub use Lists.*
pub use Prim.Native.Nat.{ℕ, zero, suc, ◌≤◌}
pub use Prim.Native.String.{String}
pub use mathlib.Core.Path.{◌≡◌, refl, sym, subst, ap, ◌∙◌, ◌≡⟨◌⟩◌, ◌∎}
pub use mathlib.Core.Logic.{◌≢◌, ◌↔◌, ◌⊎◌, inl, inr}
pub use mathlib.Core.Bool.{Bool, true, false, not, ◌&&◌, ◌||◌}
pub use mathlib.Core.Option.{Option, none, some}
pub use mathlib.Core.List.{List, [], ◌∷◌, ◌++◌, map, foldl, append-nil, append_assoc, map-append}
pub use native.Mathlib.Omega.{arith}
pub use text.Mathlib.TextEquality.{eq_iff}
