-- ===== src/Base.antt =====
-- The names that the other modules share: the libraries', passed on, and those of the children.
mod Tests
mod Lists
mod Units
mod Decode
mod Actions
mod Maps
mod Invariants
pub use Tests.*
pub use Lists.*
unfoldable pub use Units.{
  decimal, decimal_from, to_lower, includes, starts_with, up_to, is_space, trim_start, trim_end,
  same_text,
}
unfoldable pub use Decode.{decode, decode_from, char_of}
pub use Decode.{decode-units}
pub use Units.{Text, units, slice_to, slice_from, trim}
pub use Actions.*
pub use Invariants.*
unfoldable pub use Maps.{lookup, insert}
pub use Maps.{Dict, has, values, lookup-insert, lookup-insert_self}
pub use Prim.Native.Nat.{ℕ, zero, suc, ◌+◌, ◌-◌, ◌*◌, ◌/◌, ◌%◌, ◌^◌, ◌≤◌, ◌<◌, min}
pub use Prim.Native.String.{String}
pub use mathlib.Core.Path.{◌≡◌, refl, sym, ap, ◌∙◌}
pub use mathlib.Core.Logic.{◌≢◌, ◌↔◌, ◌⊎◌, inl, inr}
pub use mathlib.Core.Bool.{Bool, true, false, not, ◌&&◌, ◌||◌}
pub use mathlib.Core.Option.{Option, none, some}
pub use mathlib.Core.List.{List, [], ◌∷◌, ◌++◌, map, append-nil, append_assoc, map-append}
pub use native.Mathlib.Omega.{arith}
pub use text.Mathlib.Text.{◌==◌ as str_eq}
pub use text.Mathlib.TextEquality.{eq_iff}
pub use text.Mathlib.TextPositions.{eq_refl}
