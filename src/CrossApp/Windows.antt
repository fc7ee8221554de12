-- ===== src/CrossApp/Windows.antt =====
-- src/cross_app.rs: the windows of a list of names.
use axterminator.Prelude.{
  ℕ, ◌<◌, ◌≤◌, ◌≡◌, ◌≢◌, refl, ap, String, Bool, true, false, List, [], ◌∷◌, length, take, All, leb,
  arith, length-take_le,
}
use axterminator.CrossApp.Detect.{
  names_eq, windows, sort_by, count_subsequences, candidate_before, bump, count_all, insert_by,
}
use axterminator.CrossApp.Counts.{names_eq_iff, times}

-- How often a sequence occurs in a list of names.
abbrev pub occurrences : List String → List String → ℕ
occurrences q chain = times q (windows (length q) chain)

pub names_eq-length : (a b : List String) → names_eq a b ≡ true → length a ≡ length b
names_eq-length a b h = ap length ((names_eq_iff a b).0 h)

pub windows_short : (n : ℕ) (xs : List String) → length xs < n → windows n xs ≡ []
unfolding windows
windows_short n [] h = refl
windows_short n (x ∷ xs) h = ground (arith, h)

take_all : (xs : List String) → take (length xs) xs ≡ xs
take_all [] = refl
take_all (x ∷ xs) = ap (◌∷◌ x) (take_all xs)

pub windows_whole :
    (x : String) (xs : List String) → windows (length (x ∷ xs)) (x ∷ xs) ≡ (x ∷ xs) ∷ []
unfolding windows
windows_whole x xs =
    ground (arith, windows_short (length (x ∷ xs)) xs (omega arith), take_all (x ∷ xs))

-- The windows have the length asked for, so that a sequence of another length is none of them.
pub times_other :
    (q : List String) (n : ℕ) (xs : List String) → length q ≢ n → times q (windows n xs) ≡ 0
unfolding windows
times_other q n [] h = refl
times_other q n (x ∷ xs) h = split (leb n (length (x ∷ xs))) refl (times_other q n xs h)
  where
    split :
        (b : Bool)
        → leb n (length (x ∷ xs)) ≡ b
        → times q (windows n xs) ≡ 0
        → times q (windows n (x ∷ xs)) ≡ 0
    split false e r = ground (arith, e)
    split true e r =
        ground (arith, e, r, h, names_eq-length (take n (x ∷ xs)) q, length-take_le n (x ∷ xs))

pub times_short : (q xs : List String) → length xs < length q → occurrences q xs ≡ 0
times_short q xs h = ap (times q) (windows_short (length q) xs h)

pub length-windows : (n : ℕ) (xs : List String) → length (windows n xs) ≤ length xs
unfolding windows
length-windows n [] = omega arith
length-windows n (x ∷ xs) = ground (arith, length-windows n xs)

pub times-length : (q : List String) (ws : List (List String)) → times q ws ≤ length ws
times-length q [] = omega arith
times-length q (w ∷ ws) = ground (arith, times-length q ws)

-- Every window has the length asked for.
pub windows-length : (n : ℕ) (xs : List String) → All (λ w. length w ≡ n) (windows n xs)
unfolding windows
windows-length n [] = tt
windows-length n (x ∷ xs) = split (leb n (length (x ∷ xs))) refl (windows-length n xs)
  where
    split :
        (b : Bool)
        → leb n (length (x ∷ xs)) ≡ b
        → All (λ w. length w ≡ n) (windows n xs)
        → All (λ w. length w ≡ n) (windows n (x ∷ xs))
    split false e r = rw e tt
    split true e r = rw e (length-take_le n (x ∷ xs) (ground (arith, e)), r)

-- So have the sequences that are counted, in any order.
abbrev pub Sized : ℕ → List (List String × ℕ) → Type 0
Sized n = All (λ (c : List String × ℕ). length c.0 ≡ n)

Sized-bump :
    (n : ℕ) (s : List String) (m : List (List String × ℕ))
    → length s ≡ n
    → Sized n m
    → Sized n (bump s m)
unfolding bump
Sized-bump n s [] h d = (h, tt)
Sized-bump n s ((k, c) ∷ es) h (f, d) = split (names_eq k s) refl (Sized-bump n s es h d)
  where
    split : (b : Bool) → names_eq k s ≡ b → Sized n (bump s es) → Sized n (bump s ((k, c) ∷ es))
    split true e r = rw e (f, d)
    split false e r = rw e (f, r)

Sized-count_all :
    (n : ℕ) (ws : List (List String)) (m : List (List String × ℕ))
    → All (λ w. length w ≡ n) ws
    → Sized n m
    → Sized n (count_all ws m)
unfolding count_all
Sized-count_all n [] m h d = d
Sized-count_all n (w ∷ ws) m (e, h) d = Sized-count_all n ws (bump w m) h (Sized-bump n w m e d)

module _ {A : Type 0} (P : A → Type 0) (before : A → A → Bool) where
  All-insert_by : (x : A) (ys : List A) → P x → All P ys → All P (insert_by before x ys)
  unfolding insert_by
  All-insert_by x [] p h = (p, tt)
  All-insert_by x (y ∷ ys) p (q, h) = split (before y x) refl (All-insert_by x ys p h)
    where
      split :
          (b : Bool)
          → before y x ≡ b
          → All P (insert_by before x ys)
          → All P (insert_by before x (y ∷ ys))
      split true e r = rw e (q, r)
      split false e r = rw e (p, (q, h))

  pub All-sort_by : (xs : List A) → All P xs → All P (sort_by before xs)
  unfolding sort_by
  All-sort_by [] h = tt
  All-sort_by (x ∷ xs) (p, h) = All-insert_by x (sort_by before xs) p (All-sort_by xs h)

pub Sized-candidates :
    (n : ℕ) (chain : List String) → Sized n (sort_by candidate_before (count_subsequences chain n))
unfolding count_subsequences
Sized-candidates n chain =
    All-sort_by (λ (c : List String × ℕ). length c.0 ≡ n) candidate_before
      (count_all (windows n chain) [])
      (Sized-count_all n (windows n chain) [] (windows-length n chain) tt)
