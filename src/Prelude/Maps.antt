-- ===== src/Prelude/Maps.antt =====
-- A `HashMap<u64, V>` as an association list with at most one entry for a key.
use Prim.Native.Nat.{ℕ, suc, ◌+◌}
use mathlib.Core.Path.{◌≡◌, refl, sym, ap, ◌∙◌}
use mathlib.Core.List.{List, [], ◌∷◌, map}
use mathlib.Core.Option.{Option, none, some}
use axterminator.Prelude.Options.{map_option}
use native.Mathlib.Omega.{arith}
use axterminator.Prelude.Tests.{◌==◌, if◌then◌else◌}
use axterminator.Prelude.Lists.{length}

module _ {ℓ} {V : Type ℓ} where
  unfoldable pub lookup : ℕ → List (ℕ × V) → Option V
  lookup a [] = none
  lookup a ((b, x) ∷ es) = if b == a then some x else lookup a es

  unfoldable pub insert : ℕ → V → List (ℕ × V) → List (ℕ × V)
  insert a x [] = (a, x) ∷ []
  insert a x ((b, y) ∷ es) = if b == a then (a, x) ∷ es else (b, y) ∷ insert a x es

  unfoldable pub remove : ℕ → List (ℕ × V) → List (ℕ × V)
  remove a [] = []
  remove a ((b, y) ∷ es) = let rest = remove a es in if b == a then rest else (b, y) ∷ rest

  -- `values_mut()` with an update of each value in place.
  unfoldable pub map_values : (V → V) → List (ℕ × V) → List (ℕ × V)
  map_values f [] = []
  map_values f ((b, y) ∷ es) = (b, f y) ∷ map_values f es

  unfoldable pub values : List (ℕ × V) → List V
  values es = map (λ e. e.1) es

  pub lookup-insert :
      (a b : ℕ) (x : V) (es : List (ℕ × V))
      → lookup b (insert a x es) ≡ (if a == b then some x else lookup b es)
  unfolding lookup insert
  lookup-insert a b x [] = refl
  lookup-insert a b x ((c, y) ∷ es) = ground (arith, lookup-insert a b x es)

  pub lookup-remove :
      (a b : ℕ) (es : List (ℕ × V))
      → lookup b (remove a es) ≡ (if a == b then none else lookup b es)
  unfolding lookup remove
  lookup-remove a b [] = ground arith
  lookup-remove a b ((c, y) ∷ es) = ground (arith, lookup-remove a b es)

  pub lookup-map_values :
      (f : V → V) (b : ℕ) (es : List (ℕ × V))
      → lookup b (map_values f es) ≡ map_option f (lookup b es)
  unfolding lookup map_values
  lookup-map_values f b [] = refl
  lookup-map_values f b ((c, y) ∷ es) = ground (arith, lookup-map_values f b es)

  -- No key stands twice.
  abbrev pub Distinct : List (ℕ × V) → Type ℓ
  Distinct [] = Unit
  Distinct ((a, x) ∷ es) = (lookup a es ≡ none) × Distinct es

  pub Distinct-insert : (a : ℕ) (x : V) (es : List (ℕ × V)) → Distinct es → Distinct (insert a x es)
  unfolding lookup insert
  Distinct-insert a x [] d = (refl, tt)
  Distinct-insert a x ((b, y) ∷ es) d =
      ground (arith, Distinct-insert a x es d.1, lookup-insert a b x es)

  pub Distinct-remove : (a : ℕ) (es : List (ℕ × V)) → Distinct es → Distinct (remove a es)
  unfolding remove
  Distinct-remove a [] d = tt
  Distinct-remove a ((b, y) ∷ es) d = ground (arith, Distinct-remove a es d.1, lookup-remove a b es)

  pub Distinct-map_values :
      (f : V → V) (es : List (ℕ × V)) → Distinct es → Distinct (map_values f es)
  unfolding map_values
  Distinct-map_values f [] d = tt
  Distinct-map_values f ((b, y) ∷ es) d =
      (lookup-map_values f b es ∙ ap (map_option f) d.0, Distinct-map_values f es d.1)

  pub length-map_values : (f : V → V) (es : List (ℕ × V)) → length (map_values f es) ≡ length es
  unfolding map_values
  length-map_values f [] = refl
  length-map_values f ((b, y) ∷ es) = ap suc (length-map_values f es)

  pub length-insert :
      (a : ℕ) (x : V) (es : List (ℕ × V))
      → length (insert a x es) ≡ (elim (lookup a es) [ none ↦ length es + 1 | some y ↦ length es ])
  unfolding lookup insert
  length-insert a x [] = refl
  length-insert a x ((b, y) ∷ es) = ground (arith, length-insert a x es)

  pub remove_absent : (a : ℕ) (es : List (ℕ × V)) → lookup a es ≡ none → remove a es ≡ es
  unfolding lookup remove
  remove_absent a [] h = refl
  remove_absent a ((b, y) ∷ es) h = ground (arith, remove_absent a es)

  pub lookup-map_values_inv :
      (f : V → V) (b : ℕ) (es : List (ℕ × V)) (y : V)
      → lookup b (map_values f es) ≡ some y
      → (x : V) × (lookup b es ≡ some x) × (f x ≡ y)
  lookup-map_values_inv f b es y h = go (lookup b es) refl (sym (lookup-map_values f b es) ∙ h)
    where
      go :
          (o : Option V)
          → lookup b es ≡ o
          → map_option f o ≡ some y
          → (x : V) × (lookup b es ≡ some x) × (f x ≡ y)
      go none e a = ground arith
      go (some x) e a = (x, e, cc)
