-- ===== src/Healing/Edits.antt =====
-- The edit distance by its meaning: the least number of insertions, deletions and replacements.
use axterminator.Prelude.{
  ℕ, suc, ◌+◌, ◌≤◌, ◌≡◌, refl, subst, subst₂, ◌∙◌, List, [], ◌∷◌, ◌++◌, length, min, if◌then◌else◌,
  ◌==◌, ==_iff, leb, leb→le, arith, true, false, Bool-cases, inl, inr, ◌⊎◌,
}
use mathlib.Core.List.{append-nil}

-- The first text becomes the second by so many changes of one character.
pub data Edits : List ℕ → List ℕ → ℕ → Type 0 where
  done : Edits [] [] 0
  kept : {xs ys : List ℕ} {n : ℕ} (x : ℕ) → Edits xs ys n → Edits (x ∷ xs) (x ∷ ys) n
  replaced : {xs ys : List ℕ} {n : ℕ} (x y : ℕ) → Edits xs ys n → Edits (x ∷ xs) (y ∷ ys) (n + 1)
  deleted : {xs ys : List ℕ} {n : ℕ} (x : ℕ) → Edits xs ys n → Edits (x ∷ xs) ys (n + 1)
  inserted : {xs ys : List ℕ} {n : ℕ} (y : ℕ) → Edits xs ys n → Edits xs (y ∷ ys) (n + 1)

abbrev pub cost : ℕ → ℕ → ℕ
cost x y = if x == y then 0 else 1

-- The least such number, by recursion on both texts.
unfoldable pub least : List ℕ → List ℕ → ℕ
least [] ys = length ys
least (x ∷ xs) [] = suc (length xs)
least (x ∷ xs) (y ∷ ys) =
    min (min (least xs (y ∷ ys) + 1) (least (x ∷ xs) ys + 1)) (least xs ys + cost x y)

least-nil : (xs : List ℕ) → least xs [] ≡ length xs
unfolding least
least-nil [] = refl
least-nil (x ∷ xs) = refl

-- Removing or adding one character changes the least number by one at most.
least-delete : (x : ℕ) (xs ys : List ℕ) → least (x ∷ xs) ys ≤ least xs ys + 1
unfolding least
least-delete x xs [] = omega (arith, least-nil xs)
least-delete x xs (y ∷ ys) = omega arith

least-insert : (y : ℕ) (xs ys : List ℕ) → least xs (y ∷ ys) ≤ least xs ys + 1
unfolding least
least-insert y [] ys = omega arith
least-insert y (x ∷ xs) ys = omega arith

least-keep : (x : ℕ) (xs ys : List ℕ) → least (x ∷ xs) (x ∷ ys) ≤ least xs ys
unfolding least
least-keep x xs ys = ground arith

least-replace : (x y : ℕ) (xs ys : List ℕ) → least (x ∷ xs) (y ∷ ys) ≤ least xs ys + 1
unfolding least
least-replace x y xs ys = ground arith

-- Nothing needs fewer changes.
pub least-le : {xs ys : List ℕ} {n : ℕ} → Edits xs ys n → least xs ys ≤ n
least-le done = unfold least in omega arith
least-le (kept {xs = xs} {ys = ys} x e) = omega (arith, least-keep x xs ys, least-le e)
least-le (replaced {xs = xs} {ys = ys} x y e) = omega (arith, least-replace x y xs ys, least-le e)
least-le (deleted {xs = xs} {ys = ys} x e) = omega (arith, least-delete x xs ys, least-le e)
least-le (inserted {xs = xs} {ys = ys} y e) = omega (arith, least-insert y xs ys, least-le e)

recount : {xs ys : List ℕ} (m n : ℕ) → Edits xs ys m → m ≡ n → Edits xs ys n
recount {xs} {ys} m n e h = subst (Edits xs ys) h e

insert_all : (ys : List ℕ) → Edits [] ys (length ys)
insert_all [] = done
insert_all (y ∷ ys) =
    recount (length ys + 1) (suc (length ys)) (inserted y (insert_all ys)) (omega arith)

delete_all : (xs : List ℕ) → Edits xs [] (length xs)
delete_all [] = done
delete_all (x ∷ xs) =
    recount (length xs + 1) (suc (length xs)) (deleted x (delete_all xs)) (omega arith)

smaller : {xs ys : List ℕ} (m n : ℕ) → Edits xs ys m → Edits xs ys n → Edits xs ys (min m n)
smaller {xs} {ys} m n e f = elim (Bool-cases (leb m n)) [
  | inl h ↦ recount m (min m n) e (omega (arith, leb→le m n h))
  | inr h ↦ recount n (min m n) f (ground (arith, h))
]

-- The last step of both texts, given the changes before it.
diagonal :
    (x y : ℕ) (xs ys : List ℕ) (n : ℕ)
    → Edits xs ys n
    → ((x == y) ≡ true) ⊎ ((x == y) ≡ false)
    → Edits (x ∷ xs) (y ∷ ys) (n + cost x y)
diagonal x y xs ys n e (inl h) =
    let p : x ≡ y = (==_iff x y).0 h in
    recount n (n + cost x y) (subst (λ z. Edits (x ∷ xs) (z ∷ ys) n) p (kept x e))
      (ground (arith, h))
diagonal x y xs ys n e (inr h) = recount (n + 1) (n + cost x y) (replaced x y e) (ground (arith, h))

-- The least number is enough.
pub least-Edits : (xs ys : List ℕ) → Edits xs ys (least xs ys)
unfolding least
least-Edits [] ys = insert_all ys
least-Edits (x ∷ xs) [] = delete_all (x ∷ xs)
least-Edits (x ∷ xs) (y ∷ ys) =
    smaller _ _
      (smaller _ _ (deleted x (least-Edits xs (y ∷ ys))) (inserted y (least-Edits (x ∷ xs) ys)))
      (diagonal x y xs ys (least xs ys) (least-Edits xs ys) (Bool-cases (x == y)))

-- A text read backwards, in front of another.
abbrev pub turn : List ℕ → List ℕ → List ℕ
turn [] out = out
turn (x ∷ xs) out = turn xs (x ∷ out)

-- Changes of two texts, then of two others, change the first texts turned in front of the others.
turn-Edits :
    {xs ys us vs : List ℕ} {m n : ℕ}
    → Edits xs ys m
    → Edits us vs n
    → Edits (turn xs us) (turn ys vs) (m + n)
turn-Edits {n} done f = recount n (0 + n) f (omega arith)
turn-Edits (kept x e) f = turn-Edits e (kept x f)
turn-Edits {n} (replaced {n = k} x y e) f =
    recount (k + (n + 1)) (k + 1 + n) (turn-Edits e (replaced x y f)) (omega arith)
turn-Edits {n} (deleted {n = k} x e) f =
    recount (k + (n + 1)) (k + 1 + n) (turn-Edits e (deleted x f)) (omega arith)
turn-Edits {n} (inserted {n = k} y e) f =
    recount (k + (n + 1)) (k + 1 + n) (turn-Edits e (inserted y f)) (omega arith)

pub turn-append_one :
    (xs : List ℕ) (x : ℕ) (out : List ℕ) → turn (xs ++ (x ∷ [])) out ≡ x ∷ turn xs out
turn-append_one [] x out = refl
turn-append_one (y ∷ xs) x out = turn-append_one xs x (y ∷ out)

turn-turn : (xs out us : List ℕ) → turn (turn xs out) us ≡ turn out (xs ++ us)
turn-turn [] out us = refl
turn-turn (x ∷ xs) out us = turn-turn xs (x ∷ out) us

turned : {xs ys : List ℕ} {n : ℕ} → Edits xs ys n → Edits (turn xs []) (turn ys []) n
turned {n} e = recount (n + 0) n (turn-Edits e done) (omega arith)

turn_twice : (xs : List ℕ) → turn (turn xs []) [] ≡ xs
turn_twice xs = turn-turn xs [] [] ∙ append-nil xs

-- The least number of changes is the same backwards.
pub least-turn : (xs ys : List ℕ) → least (turn xs []) (turn ys []) ≡ least xs ys
least-turn xs ys = omega (arith, least-le (turned (least-Edits xs ys)), back)
  where
    back : least xs ys ≤ least (turn xs []) (turn ys [])
    back =
        subst₂ (λ us vs. least us vs ≤ least (turn xs []) (turn ys [])) (turn_twice xs)
          (turn_twice ys) (least-le (turned (least-Edits (turn xs []) (turn ys []))))
