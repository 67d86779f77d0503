-- ===== src/Prelude/Assoc.antt =====
-- A JavaScript Map with text keys, as an association list.
use Prim.Native.String.{String}
use mathlib.Core.Path.{◌≡◌, refl}
use mathlib.Core.Option.{Option, none, some}
use mathlib.Core.List.{List, [], ◌∷◌}
use native.Mathlib.Omega.{arith}
use text.Mathlib.Text.{◌==◌ as str_eq}
use text.Mathlib.TextEquality.{eq_iff}
use high_throughput_notifica.Prelude.Tests.{if◌then◌else◌}

module _ {ℓ} {V : Type ℓ} where
  unfoldable pub lookup : String → List (String × V) → Option V
  lookup k [] = none
  lookup k ((j, v) ∷ m) = if str_eq j k then some v else lookup k m

  unfoldable pub insert : String → V → List (String × V) → List (String × V)
  insert k v [] = (k, v) ∷ []
  insert k v ((j, w) ∷ m) = if str_eq j k then (j, v) ∷ m else (j, w) ∷ insert k v m

  -- `map.set(name, v)` changes what `map.get` gives for `name` and for nothing else.
  pub lookup-insert :
      (name other : String) (v : V) (entries : List (String × V))
      → lookup other (insert name v entries)
        ≡ (if str_eq name other then some v else lookup other entries)
  unfolding lookup insert
  lookup-insert name other v [] = refl
  lookup-insert name other v ((first, w) ∷ rest) =
      let later = lookup-insert name other v rest in
      ground (arith, later, eq_iff first name, eq_iff first other, eq_iff name other)

  unfoldable pub remove : String → List (String × V) → List (String × V)
  remove k [] = []
  remove k ((j, v) ∷ m) = if str_eq j k then remove k m else (j, v) ∷ remove k m

  -- `map.delete(name)` makes `map.get` find nothing under `name`, and changes nothing else.
  pub lookup-remove :
      (name other : String) (entries : List (String × V))
      → lookup other (remove name entries)
        ≡ (if str_eq name other then none else lookup other entries)
  unfolding lookup remove
  lookup-remove name other [] = ground arith
  lookup-remove name other ((first, w) ∷ rest) =
      let later = lookup-remove name other rest in
      ground (arith, later, eq_iff first name, eq_iff first other, eq_iff name other)
