-- ===== src/Prelude/TextMaps.antt =====
-- A `HashMap<String, V>` as an association list.
use Prim.Native.String.{String}
use mathlib.Core.Path.{◌≡◌, refl}
use mathlib.Core.List.{List, [], ◌∷◌}
use mathlib.Core.Option.{Option, none, some}
use native.Mathlib.Omega.{arith}
use axterminator.Prelude.Tests.{if◌then◌else◌}
use axterminator.Prelude.Texts.{str_eq, str_eq_iff}

module _ {ℓ} {V : Type ℓ} where
  unfoldable pub lookup : String → List (String × V) → Option V
  lookup a [] = none
  lookup a ((b, x) ∷ es) = if str_eq b a then some x else lookup a es

  unfoldable pub insert : String → V → List (String × V) → List (String × V)
  insert a x [] = (a, x) ∷ []
  insert a x ((b, y) ∷ es) = if str_eq b a then (a, x) ∷ es else (b, y) ∷ insert a x es

  pub lookup-insert :
      (a b : String) (x : V) (es : List (String × V))
      → lookup b (insert a x es) ≡ (if str_eq a b then some x else lookup b es)
  unfolding lookup insert
  lookup-insert a b x [] = refl
  lookup-insert a b x ((c, y) ∷ es) =
      ground (arith, str_eq_iff a b, str_eq_iff c a, str_eq_iff c b, lookup-insert a b x es)
