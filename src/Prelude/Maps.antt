-- ===== src/Prelude/Maps.antt =====
-- Go's `map[string]V` as an association list. Where the program ranges over a map, the order of the
-- entries is an input of the model.
use text.Mathlib.TextPositions.{eq_refl}
use text.Mathlib.TextEquality.{eq_iff}
use text.Mathlib.Text.{◌==◌}
use Prim.Native.String.{String}
use mathlib.Core.Path.{◌≡◌, refl}
use mathlib.Core.Option.{Option, none, some}
use mathlib.Core.List.{List, [], ◌∷◌}
use native.Mathlib.Omega.{arith}
use go_virtualbox.Prelude.Tests.{if◌then◌else◌}

abbrev pub Dict {ℓ} : Type ℓ → Type ℓ
Dict V = List (String × V)

module _ {ℓ} {Value : Type ℓ} where
  -- v, ok := m[k]
  unfoldable pub lookup : String → Dict Value → Option Value
  lookup key [] = none
  lookup key ((other, value) ∷ entries) =
      let later = lookup key entries in if other == key then some value else later

  -- m[k] = v; an entry that is there keeps its place
  unfoldable pub insert : String → Value → Dict Value → Dict Value
  insert key value [] = (key, value) ∷ []
  insert key value ((other, old) ∷ entries) =
      let rest = insert key value entries in
      if other == key then (other, value) ∷ entries else (other, old) ∷ rest

  pub lookup-insert :
      (key asked : String) (value : Value) (entries : Dict Value)
      → lookup asked (insert key value entries)
        ≡ (if key == asked then some value else lookup asked entries)
  unfolding lookup insert
  lookup-insert key asked value [] = refl
  lookup-insert key asked value ((other, old) ∷ entries) = ground (
    arith,
    lookup-insert key asked value entries,
    eq_iff other asked,
    eq_iff other key,
    eq_iff key asked,
  )

  pub lookup-insert_self :
      (key : String) (value : Value) (entries : Dict Value)
      → lookup key (insert key value entries) ≡ some value
  lookup-insert_self key value entries = simp (lookup-insert, eq_refl)
