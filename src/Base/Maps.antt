-- ===== src/Base/Maps.antt =====
-- A Go map with text keys, as an association list. A `range` over it visits the entries in the
-- order of the list, so that a statement over every list speaks of every order of iteration.
use Prim.Native.String.{String}
use mathlib.Core.Path.{◌≡◌, refl}
use mathlib.Core.List.{List, [], ◌∷◌}
use mathlib.Core.Option.{Option, none, some}
use native.Mathlib.Omega.{arith}
use text.Mathlib.TextEquality.{eq_iff}
use text.Mathlib.TextPositions.{eq_refl}
use node_gateway.Base.Tests.{◌==◌, string_eq, if◌then◌else◌}

abbrev pub Map {ℓ} : Type ℓ → Type ℓ
Map V = List (String × V)

module _ {ℓ} {V : Type ℓ} where
  -- `value, ok := entries[key]`
  unfoldable pub lookup : (key : String) (entries : Map V) → Option V
  lookup key [] = none
  lookup key ((here, value) ∷ rest) = if here == key then some value else lookup key rest

  -- `entries[key] = value`
  unfoldable pub insert : (key : String) (value : V) (entries : Map V) → Map V
  insert key value [] = (key, value) ∷ []
  insert key value ((here, old) ∷ rest) =
      if here == key then (key, value) ∷ rest else (here, old) ∷ insert key value rest

  pub lookup-insert :
      (written read : String) (value : V) (entries : Map V)
      → lookup read (insert written value entries)
        ≡ (if written == read then some value else lookup read entries)
  unfolding lookup insert
  lookup-insert written read value [] = refl
  lookup-insert written read value ((here, old) ∷ rest) = ground (
    arith,
    lookup-insert written read value rest,
    eq_iff written read,
    eq_iff here read,
    eq_iff here written,
  )

  pub lookup-insert_self :
      (key : String) (value : V) (entries : Map V)
      → lookup key (insert key value entries) ≡ some value
  lookup-insert_self key value entries = simp (eq_refl, lookup-insert)

  -- `m[k]` where the key may be absent: the zero value of the type.
  abbrev pub value_or : V → Option V → V
  value_or zero_value none = zero_value
  value_or zero_value (some v) = v
