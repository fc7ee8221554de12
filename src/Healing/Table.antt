-- ===== src/Healing/Table.antt =====
-- src/healing_match.rs, `levenshtein_distance`: the cells of the matrix, and what the last one is.
use axterminator.Prelude.{
  ℕ, zero, suc, ◌+◌, ◌-◌, ◌≤◌, ◌<◌, ◌≡◌, refl, sym, ap, ap₂, subst, ◌∙◌, ◌⊎◌, inl, inr, true, false,
  List, [], ◌∷◌, ◌++◌, some, length, get_elem?, take, min, if◌then◌else◌, ◌==◌, ==_iff, ◌&&◌, arith,
  Bool-cases, length-take_le,
}
use axterminator.Healing.{
  Matrix, start_matrix, same_char, fill_cell, fill_row, fill_rows, levenshtein_distance,
}
use axterminator.Healing.Edits.{
  Edits, cost, least, least-le, least-Edits, turn, turn-append_one, least-turn,
}

-- A prefix, backwards.
abbrev prefix : ℕ → List ℕ → List ℕ
prefix k s = turn (take k s) []

length-turn : (xs out : List ℕ) → length (turn xs out) ≡ length xs + length out
length-turn [] out = omega arith
length-turn (x ∷ xs) out = omega (arith, length-turn xs (x ∷ out))

length-prefix : (k : ℕ) (s : List ℕ) → k ≤ length s → length (prefix k s) ≡ k
length-prefix k s h = omega (arith, length-turn (take k s) [], length-take_le k s h)

-- The item at an index inside a list, and the prefix that ends with it.
prefix-suc :
    (k : ℕ) (s : List ℕ)
    → k < length s
    → (x : ℕ) × (get_elem? s k ≡ some x) × (take (suc k) s ≡ take k s ++ (x ∷ []))
prefix-suc k [] h = absurd (omega arith)
prefix-suc zero (y ∷ s) h = (y, refl, refl)
prefix-suc (suc k) (y ∷ s) h =
    let (x, at, e) = prefix-suc k s (omega arith) in (x, at, ap (◌∷◌ y) e)

take-length : (s : List ℕ) → take (length s) s ≡ s
take-length [] = refl
take-length (x ∷ s) = ap (◌∷◌ x) (take-length s)

least-nil_left : (ys : List ℕ) → least [] ys ≡ length ys
unfolding least
least-nil_left ys = refl

least-nil_right : (xs : List ℕ) → least xs [] ≡ length xs
unfolding least
least-nil_right [] = refl
least-nil_right (x ∷ xs) = refl

least_empty_left : (xs ys : List ℕ) → length xs ≡ 0 → least xs ys ≡ length ys
least_empty_left [] ys h = least-nil_left ys
least_empty_left (x ∷ xs) ys h = absurd (omega arith)

least_empty_right : (xs ys : List ℕ) → length ys ≡ 0 → least xs ys ≡ length xs
least_empty_right xs [] h = least-nil_right xs
least_empty_right xs (y ∷ ys) h = absurd (omega arith)

suc_sub_one : (n : ℕ) → suc n - 1 ≡ n
suc_sub_one n = omega arith

least-cons :
    (x y : ℕ) (xs ys : List ℕ)
    → least (x ∷ xs) (y ∷ ys)
      ≡ min (min (least xs (y ∷ ys) + 1) (least (x ∷ xs) ys + 1)) (least xs ys + cost x y)
unfolding least
least-cons x y xs ys = refl

module _ (a b : List ℕ) where
  -- The distance of two prefixes.
  abbrev between : ℕ → ℕ → ℕ
  between i j = least (prefix i a) (prefix j b)

  between-suc :
      (p q : ℕ)
      → p < length a
      → q < length b
      → between (suc p) (suc q)
        ≡ min
            (min (between p (suc q) + 1) (between (suc p) q + 1))
            (between p q + (if same_char (get_elem? a p) (get_elem? b q) then 0 else 1))
  between-suc p q hp hq =
      let (x, at_x, ex) = prefix-suc p a hp in
      let (y, at_y, ey) = prefix-suc q b hq in
      let fx : prefix (suc p) a ≡ x ∷ prefix p a =
        ap (λ l. turn l []) ex ∙ turn-append_one (take p a) x [] in
      let fy : prefix (suc q) b ≡ y ∷ prefix q b =
        ap (λ l. turn l []) ey ∙ turn-append_one (take q b) y [] in
      rw (fx, fy, at_x, at_y, least-cons) refl

  -- The cells before `(i, j)` in the order of the loops, with the first row and column, are right.
  record IsFilled (i j : ℕ) (m : Matrix) : Type 0 where
    above : (p q : ℕ) → p < i → p ≤ length a → q ≤ length b → m p q ≡ between p q
    before : (q : ℕ) → q < j → i ≤ length a → q ≤ length b → m i q ≡ between i q
    edge : (p : ℕ) → p ≤ length a → m p 0 ≡ between p 0

  fill_cell_here :
      (i j : ℕ) (m : Matrix)
      → fill_cell a b i j m i j
        ≡ min (min (m (i - 1) j + 1) (m i (j - 1) + 1)) (
            m (i - 1) (j - 1)
            + (if same_char (get_elem? a (i - 1)) (get_elem? b (j - 1)) then 0 else 1))
  unfolding fill_cell
  fill_cell_here i j m = rw ((==_iff i i).1 refl, (==_iff j j).1 refl) refl

  fill_cell_above :
      (i j p q : ℕ) (m : Matrix) → ((p == i) && (q == j)) ≡ false → fill_cell a b i j m p q ≡ m p q
  unfolding fill_cell
  fill_cell_above i j p q m h = rw h refl

  fill_cell-IsFilled :
      (p q : ℕ) (m : Matrix)
      → p < length a
      → q < length b
      → IsFilled (suc p) (suc q) m
      → IsFilled (suc p) (suc (suc q)) (fill_cell a b (suc p) (suc q) m)
  fill_cell-IsFilled p q m hp hq f = record {
    above = λ u v lt le le'.
        fill_cell_above (suc p) (suc q) u v m (ground (arith, lt)) ∙ f.above u v lt le le';
    before = λ v lt le le'. split v lt le le' (Bool-cases (v == suc q));
    edge = λ u le. fill_cell_above (suc p) (suc q) u 0 m (ground arith) ∙ f.edge u le;
  }
    where
      here : fill_cell a b (suc p) (suc q) m (suc p) (suc q) ≡ between (suc p) (suc q)
      here =
          fill_cell_here (suc p) (suc q) m
          ∙ rw
              (
                suc_sub_one p,
                suc_sub_one q,
                f.above p (suc q) (omega arith) (omega (arith, hp)) (omega (arith, hq)),
                f.before q (omega arith) (omega (arith, hp)) (omega (arith, hq)),
                f.above p q (omega arith) (omega (arith, hp)) (omega (arith, hq)),
              )
              (sym (between-suc p q hp hq))

      split :
          (v : ℕ)
          → v < suc (suc q)
          → suc p ≤ length a
          → v ≤ length b
          → ((v == suc q) ≡ true) ⊎ ((v == suc q) ≡ false)
          → fill_cell a b (suc p) (suc q) m (suc p) v ≡ between (suc p) v
      split v lt le le' (inl e) = let k = (==_iff v (suc q)).0 e in rw k here
      split v lt le le' (inr e) =
          fill_cell_above (suc p) (suc q) (suc p) v m (ground (arith, e))
          ∙ f.before v (ground (arith, lt, e)) le le'

  -- The cells of a row are all filled once the loop has gone through the second text.
  fill_row-IsFilled :
      (p q n : ℕ) (m : Matrix)
      → p < length a
      → q + n ≡ length b
      → IsFilled (suc p) (suc q) m
      → IsFilled (suc p) (suc (length b)) (fill_row a b (suc p) (suc q) n m)
  unfolding fill_row
  fill_row-IsFilled p q zero m hp e f =
      subst (λ k. IsFilled (suc p) k m) {x = suc q} {y = suc (length b)} (omega (arith, e)) f
  fill_row-IsFilled p q (suc n) m hp e f =
      subst
        (λ k.
          IsFilled (suc p) (suc (length b))
            (fill_row a b (suc p) k n (fill_cell a b (suc p) (suc q) m)))
        {x = suc (suc q)} {y = suc q + 1} (omega arith)
        (fill_row-IsFilled p (suc q) n (fill_cell a b (suc p) (suc q) m) hp (omega (arith, e))
          (fill_cell-IsFilled p q m hp (omega (arith, e)) f))

  next_row : (p : ℕ) (m : Matrix) → IsFilled (suc p) (suc (length b)) m → IsFilled (suc (suc p)) 1 m
  next_row p m f = record {
    above = λ u v lt le le'. split u v lt le le' (Bool-cases (u == suc p));
    before = λ v lt le le'.
        subst (λ k. m (suc (suc p)) k ≡ between (suc (suc p)) k) {x = 0} {y = v} (omega (arith, lt))
          (f.edge (suc (suc p)) le);
    edge = f.edge;
  }
    where
      split :
          (u v : ℕ)
          → u < suc (suc p)
          → u ≤ length a
          → v ≤ length b
          → ((u == suc p) ≡ true) ⊎ ((u == suc p) ≡ false)
          → m u v ≡ between u v
      split u v lt le le' (inl e) =
          let k = (==_iff u (suc p)).0 e in
          subst (λ w. m w v ≡ between w v) (sym k)
            (f.before v (omega (arith, le')) (subst (λ w. w ≤ length a) k le) le')
      split u v lt le le' (inr e) = f.above u v (ground (arith, lt, e)) le le'

  fill_rows-IsFilled :
      (p n : ℕ) (m : Matrix)
      → p + n ≡ length a
      → IsFilled (suc p) 1 m
      → IsFilled (suc (length a)) 1 (fill_rows a b (suc p) n m)
  unfolding fill_rows
  fill_rows-IsFilled p zero m e f =
      subst (λ k. IsFilled k 1 m) {x = suc p} {y = suc (length a)} (omega (arith, e)) f
  fill_rows-IsFilled p (suc n) m e f =
      let row = fill_row a b (suc p) 1 (length b) m in
      subst (λ k. IsFilled (suc (length a)) 1 (fill_rows a b k n row)) {x = suc (suc p)}
        {y = suc p + 1} (omega arith)
        (fill_rows-IsFilled (suc p) n row (omega (arith, e))
          (next_row p row (fill_row-IsFilled p 0 (length b) m (omega (arith, e)) (omega arith) f)))

  start-IsFilled : IsFilled 1 1 start_matrix
  unfolding start_matrix
  start-IsFilled = record {
    above = λ p q lt le le'.
        subst (λ k. start_matrix k q ≡ between k q) {x = 0} {y = p} (omega (arith, lt))
          (first q le');
    before = λ q lt le le'.
        subst (λ k. start_matrix 1 k ≡ between 1 k) {x = 0} {y = q} (omega (arith, lt)) (edge 1 le);
    edge = edge;
  }
    where
      edge : (p : ℕ) → p ≤ length a → start_matrix p 0 ≡ between p 0
      edge p le = sym (least-nil_right (prefix p a) ∙ length-prefix p a le)

      first : (q : ℕ) → q ≤ length b → start_matrix 0 q ≡ between 0 q
      first q le = ground (arith, least-nil_left (prefix q b), length-prefix q b le)

  -- The distance that the table gives is the least number of insertions, deletions and replacements of
  -- one character that make the second text of the first: so many are enough, and fewer are not.
  pub levenshtein_distance-Edits :
      Edits a b (levenshtein_distance a b) × ((n : ℕ) → Edits a b n → levenshtein_distance a b ≤ n)
  levenshtein_distance-Edits =
      subst (λ d. Edits a b d × ((n : ℕ) → Edits a b n → d ≤ n)) (sym table)
        (least-Edits a b, λ n e. least-le e)
    where
      filled : fill_rows a b 1 (length a) start_matrix (length a) (length b) ≡ least a b
      filled =
          (fill_rows-IsFilled 0 (length a) start_matrix (omega arith) start-IsFilled).above
            (length a) (length b) (omega arith) (omega arith) (omega arith)
          ∙ ap₂ (λ u v. least (turn u []) (turn v [])) (take-length a) (take-length b)
          ∙ least-turn a b

      table : levenshtein_distance a b ≡ least a b
      table =
          unfold levenshtein_distance in
          ground (arith, filled, least_empty_left a b, least_empty_right a b)
