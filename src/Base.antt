-- ===== src/Base.antt =====
-- The names that every part shares: the libraries', passed on, and those of the children.
mod Tests
mod Lists
mod Maps
mod Int
mod Text
mod Base64
pub use Tests.*
pub use Lists.*
pub use Maps.*
pub use Int.*
pub use Text.*
pub use Base64.*
unfoldable pub use Text.{
  codes, utf8_of_code, bytes, has_prefix, contains_bytes, contains, to_lower_byte, digits_from,
  itoa, concat, join, decimal_from, decimal,
}
unfoldable pub use Maps.{lookup, insert}
unfoldable pub use Lists.{put_at}
unfoldable pub use Base64.{symbol, base64, decode_base64}
pub use Prim.Native.Nat.{
  ℕ, zero, suc, ◌+◌, ◌-◌, ◌*◌, ◌/◌, ◌%◌, ◌^◌, ◌≤◌, ◌<◌, max, compare, Ordering,
}
pub use Prim.Native.String.{String}
pub use mathlib.Core.Path.{◌≡◌, refl, sym, ap, ap₂, ◌∙◌, subst, fun_ext, ◌≡⟨◌⟩◌, ◌∎}
pub use mathlib.Core.Logic.{◌≢◌, ◌↔◌, ◌⊎◌, inl, inr}
pub use mathlib.Core.Bool.{Bool, true, false, not, or-false, ◌&&◌, ◌||◌}
pub use mathlib.Core.Option.{Option, none, some}
pub use mathlib.Core.List.{List, [], ◌∷◌, ◌++◌, map, reverse}
pub use native.Mathlib.Omega.{arith}
pub use text.Mathlib.TextEquality.{eq_iff}
pub use text.Mathlib.TextPositions.{eq_refl}
