-- ===== src/Prelude/Texts.antt =====
-- Native texts where the source only compares them, and their code points where it walks them.
use Prim.Native.Nat.{ℕ}
use Prim.Native.Char.{code}
use Prim.Native.String.{String, ◌++◌ as append}
use mathlib.Core.Path.{◌≡◌, refl, ap₂, subst}
use mathlib.Core.Logic.{◌↔◌}
use mathlib.Core.Bool.{Bool, true, false, ◌||◌, ◌&&◌}
use mathlib.Core.List.{List, [], ◌∷◌}
use text.Mathlib.Text.{◌==◌ as text_eq}
use text.Mathlib.TextEquality.{eq_iff}
use native.Mathlib.Omega.{arith}
use axterminator.Prelude.Tests.{◌==◌}

abbrev pub codes : String → List ℕ
codes String.[] = []
codes (String.◌∷◌ c s) = code c ∷ codes s

-- `s == t` on texts.
abbrev pub str_eq : String → String → Bool
str_eq s t = text_eq s t

pub str_eq_iff : (s t : String) → (str_eq s t ≡ true) ↔ (s ≡ t)
str_eq_iff s t = eq_iff s t

-- `matches!(name, "a" | "b" | …)`.
abbrev pub one_of : String → List String → Bool
one_of name [] = false
one_of name (s ∷ ss) = str_eq name s || one_of name ss

-- `str::starts_with` and `str::contains` on code points; the needle comes first.
unfoldable pub is_prefix : List ℕ → List ℕ → Bool
is_prefix [] ys = true
is_prefix (x ∷ xs) [] = false
is_prefix (x ∷ xs) (y ∷ ys) = x == y && is_prefix xs ys

unfoldable pub is_infix : List ℕ → List ℕ → Bool
unfolding is_prefix
is_infix xs [] = is_prefix xs []
is_infix xs (y ∷ ys) = is_prefix xs (y ∷ ys) || is_infix xs ys

-- `format!`: the pieces of a message put together.
abbrev pub format : List String → String
format [] = ""
format (s ∷ ss) = append s (format ss)

-- `==` on texts as code points, or on bytes.
unfoldable pub codes_eq : List ℕ → List ℕ → Bool
codes_eq [] [] = true
codes_eq (x ∷ a) (y ∷ b) = x == y && codes_eq a b
codes_eq _ _ = false

codes_eq-eq : (a b : List ℕ) → codes_eq a b ≡ true → a ≡ b
unfolding codes_eq
codes_eq-eq [] [] h = refl
codes_eq-eq [] (y ∷ b) h = absurd (ground (arith, h))
codes_eq-eq (x ∷ a) [] h = absurd (ground (arith, h))
codes_eq-eq (x ∷ a) (y ∷ b) h = ap₂ ◌∷◌ (ground (arith, h)) (codes_eq-eq a b (ground (arith, h)))

codes_eq_same : (a : List ℕ) → codes_eq a a ≡ true
unfolding codes_eq
codes_eq_same [] = refl
codes_eq_same (x ∷ a) = ground (arith, codes_eq_same a)

pub codes_eq_iff : (a b : List ℕ) → (codes_eq a b ≡ true) ↔ (a ≡ b)
codes_eq_iff a b = (codes_eq-eq a b, λ e. subst (λ c. codes_eq a c ≡ true) e (codes_eq_same a))
