-- ===== src/CrossApp/Counts.antt =====
-- src/cross_app.rs, `count_subsequences`: what the table of counts holds.
use axterminator.Prelude.{
  ℕ, zero, suc, ◌+◌, ◌^◌, ◌%◌, ◌<◌, ◌≡◌, refl, ap, ap₂, subst, ◌∙◌, ◌↔◌, String, Bool, true, false,
  ◌&&◌, ◌||◌, Option, none, some, List, [], ◌∷◌, if◌then◌else◌, str_eq_iff, leb, arith,
}
use axterminator.CrossApp.Detect.{
  names_eq, any, windows, insert_by, sort_by, add_one, bump, count_all, count_subsequences,
}

names_eq-eq : (a b : List String) → names_eq a b ≡ true → a ≡ b
unfolding names_eq
names_eq-eq [] [] h = refl
names_eq-eq [] (y ∷ b) h = absurd (ground (arith, h))
names_eq-eq (x ∷ a) [] h = absurd (ground (arith, h))
names_eq-eq (x ∷ a) (y ∷ b) h =
    ap₂ ◌∷◌ ((str_eq_iff x y).0 (ground (arith, h))) (names_eq-eq a b (ground (arith, h)))

names_eq-same : (a : List String) → names_eq a a ≡ true
unfolding names_eq
names_eq-same [] = refl
names_eq-same (x ∷ a) = ground (arith, (str_eq_iff x x).1 refl, names_eq-same a)

pub names_eq_iff : (a b : List String) → (names_eq a b ≡ true) ↔ (a ≡ b)
names_eq_iff a b = (names_eq-eq a b, λ e. subst (λ c. names_eq a c ≡ true) e (names_eq-same a))

-- The number of windows that are the sequence.
abbrev pub times : List String → List (List String) → ℕ
times seq [] = 0
times seq (w ∷ ws) = let rest = times seq ws in if names_eq w seq then suc rest else rest

abbrev lookup_count : List String → List (List String × ℕ) → Option ℕ
lookup_count q [] = none
lookup_count q ((k, n) ∷ es) = let rest = lookup_count q es in if names_eq k q then some n else rest

abbrev Distinct : List (List String × ℕ) → Type 0
Distinct [] = Unit
Distinct ((k, n) ∷ es) = (lookup_count k es ≡ none) × Distinct es

abbrev value : Option ℕ → ℕ
value none = 0
value (some n) = n

lookup_count-bump :
    (q s : List String) (m : List (List String × ℕ))
    → lookup_count q (bump s m)
      ≡ (if names_eq s q then some (add_one (value (lookup_count q m))) else lookup_count q m)
unfolding bump
lookup_count-bump q s [] = ground arith
lookup_count-bump q s ((k, n) ∷ es) =
    ground (arith, names_eq_iff k s, names_eq_iff k q, names_eq_iff s q, lookup_count-bump q s es)

Distinct-bump : (s : List String) (m : List (List String × ℕ)) → Distinct m → Distinct (bump s m)
unfolding bump
Distinct-bump s [] d = (refl, tt)
Distinct-bump s ((k, n) ∷ es) (f, d) = split (names_eq k s) refl (Distinct-bump s es d)
  where
    split : (b : Bool) → names_eq k s ≡ b → Distinct (bump s es) → Distinct (bump s ((k, n) ∷ es))
    split true e r = rw e (f, d)
    split false e r =
        rw e (ground (arith, e, f, names_eq_iff k s, names_eq_iff s k, lookup_count-bump k s es), r)

Distinct-count_all :
    (ws : List (List String)) (m : List (List String × ℕ)) → Distinct m → Distinct (count_all ws m)
unfolding count_all
Distinct-count_all [] m d = d
Distinct-count_all (w ∷ ws) m d = Distinct-count_all ws (bump w m) (Distinct-bump w m d)

-- A count after some more.
abbrev plus : Option ℕ → ℕ → Option ℕ
plus o zero = o
plus o (suc n) = some ((value o + suc n) % 2 ^ 32)

plus-add_one : (o : Option ℕ) (n : ℕ) → plus (some (add_one (value o))) n ≡ plus o (suc n)
unfolding add_one
plus-add_one o zero = refl
plus-add_one o (suc n) =
    ap some {x = ((value o + 1) % 2 ^ 32 + suc n) % 2 ^ 32} {y = (value o + suc (suc n)) % 2 ^ 32}
      (omega arith)

lookup_count-count_all :
    (q : List String) (ws : List (List String)) (m : List (List String × ℕ))
    → lookup_count q (count_all ws m) ≡ plus (lookup_count q m) (times q ws)
unfolding count_all
lookup_count-count_all q [] m = refl
lookup_count-count_all q (w ∷ ws) m =
    split (names_eq w q) refl (lookup_count-count_all q ws (bump w m))
  where
    split :
        (b : Bool)
        → names_eq w q ≡ b
        → lookup_count q (count_all ws (bump w m)) ≡ plus (lookup_count q (bump w m)) (times q ws)
        → lookup_count q (count_all (w ∷ ws) m) ≡ plus (lookup_count q m) (times q (w ∷ ws))
    split true e r =
        let now : lookup_count q (bump w m) ≡ some (add_one (value (lookup_count q m))) =
          lookup_count-bump q w m ∙ rw e refl in
        r
        ∙ ap (λ o. plus o (times q ws)) now
        ∙ plus-add_one (lookup_count q m) (times q ws)
        ∙ rw e refl
    split false e r =
        let now : lookup_count q (bump w m) ≡ lookup_count q m =
          lookup_count-bump q w m ∙ rw e refl in
        r ∙ ap (λ o. plus o (times q ws)) now ∙ rw e refl

-- An entry for the sequence with at least such a count.
abbrev pub hits : ℕ → List String → List String × ℕ → Bool
hits least q c = names_eq c.0 q && leb least c.1

abbrev reaches : ℕ → Option ℕ → Bool
reaches least none = false
reaches least (some n) = leb least n

any-hits :
    (least : ℕ) (q : List String) (m : List (List String × ℕ))
    → Distinct m
    → any (hits least q) m ≡ reaches least (lookup_count q m)
any-hits least q [] d = refl
any-hits least q ((k, n) ∷ es) (f, d) = split (names_eq k q) refl (any-hits least q es d)
  where
    split :
        (b : Bool)
        → names_eq k q ≡ b
        → any (hits least q) es ≡ reaches least (lookup_count q es)
        → any (hits least q) ((k, n) ∷ es) ≡ reaches least (lookup_count q ((k, n) ∷ es))
    split false e r = rw e r
    split true e r =
        let none_left : any (hits least q) es ≡ false =
          r ∙ ap (reaches least) (subst (λ c. lookup_count c es ≡ none) (names_eq-eq k q e) f) in
        ground (arith, e, none_left)

-- There is such an entry exactly if the sequence occurs so often.
pub any-count_subsequences :
    (least : ℕ) (q chain : List String) (window : ℕ)
    → times q (windows window chain) < 2 ^ 32
    → any (hits least q) (count_subsequences chain window)
      ≡ (leb 1 (times q (windows window chain)) && leb least (times q (windows window chain)))
unfolding count_subsequences
any-count_subsequences least q chain window h =
    any-hits least q (count_all (windows window chain) [])
      (Distinct-count_all (windows window chain) [] tt)
    ∙ ap (reaches least) (lookup_count-count_all q (windows window chain) [])
    ∙ total (times q (windows window chain)) h
  where
    total : (n : ℕ) → n < 2 ^ 32 → reaches least (plus none n) ≡ (leb 1 n && leb least n)
    total zero h = refl
    total (suc n) h =
        let full : (0 + suc n) % 2 ^ 32 ≡ suc n = omega (arith, h) in ground (arith, full)

module _ {ℓ} {A : Type ℓ} (p : A → Bool) (before : A → A → Bool) where
  any-insert_by : (x : A) (ys : List A) → any p (insert_by before x ys) ≡ (p x || any p ys)
  unfolding insert_by
  any-insert_by x [] = refl
  any-insert_by x (y ∷ ys) = ground (arith, any-insert_by x ys)

  pub any-sort_by : (xs : List A) → any p (sort_by before xs) ≡ any p xs
  unfolding sort_by
  any-sort_by [] = refl
  any-sort_by (x ∷ xs) = any-insert_by x (sort_by before xs) ∙ ap (λ b. p x || b) (any-sort_by xs)
