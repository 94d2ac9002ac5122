-- ===== src/Prelude/Maps.antt =====
-- A Go map with text keys, as an association list: a read finds the first entry of a key, and a
-- write replaces it where it stands or adds it at the end.
use Prim.Native.String.{String}
use mathlib.Core.Path.{◌≡◌, refl}
use mathlib.Core.Option.{Option, none, some}
use mathlib.Core.List.{List, [], ◌∷◌}
use native.Mathlib.Omega.{arith}
use text.Mathlib.Text.{◌==◌}
use text.Mathlib.TextEquality.{eq_iff}
use agent_stop_and_go.Prelude.Tests.{if◌then◌else◌}

abbrev pub Assoc {ℓ} : Type ℓ → Type ℓ
Assoc Value = List (String × Value)

module _ {ℓ} {Value : Type ℓ} where
  unfoldable pub insert : String → Value → Assoc Value → Assoc Value
  insert key value [] = (key, value) ∷ []
  insert key value ((other, old) ∷ rest) =
      let later = insert key value rest in
      if other == key then (key, value) ∷ rest else (other, old) ∷ later

  unfoldable pub lookup : String → Assoc Value → Option Value
  lookup key [] = none
  lookup key ((other, value) ∷ rest) =
      let later = lookup key rest in if other == key then some value else later

  pub lookup-insert :
      (key wanted : String) (value : Value) (entries : Assoc Value)
      → lookup wanted (insert key value entries)
        ≡ (if key == wanted then some value else lookup wanted entries)
  unfolding insert lookup
  lookup-insert key wanted value [] = refl
  lookup-insert key wanted value ((other, old) ∷ rest) = ground (
    arith,
    lookup-insert key wanted value rest,
    eq_iff other wanted,
    eq_iff other key,
    eq_iff key wanted,
  )
