-- ===== src/Healing.antt =====
-- src/healing_match.rs: the fuzzy comparison of titles. A text is the list of its code points, and a
-- matrix the function from its indices to its cells; every index that the loops use is inside it.
pub mod Edits
pub mod Table
mod Tests
use axterminator.Prelude.{
  codes_eq, ℕ, zero, suc, ◌+◌, ◌-◌, Bool, true, false, List, [], ◌∷◌, Option, none, some, length,
  get_elem?, min, max, if◌then◌else◌, ◌==◌, ◌&&◌, is_infix, ◌||◌,
}

abbrev pub Matrix : Type 0
Matrix = ℕ → ℕ → ℕ

abbrev pub set_cell : ℕ → ℕ → ℕ → Matrix → Matrix
set_cell i j v matrix p q = if p == i && q == j then v else matrix p q

-- The two loops that number the first column and the first row of a matrix of zeros.
unfoldable pub start_matrix : Matrix
start_matrix i j = if j == 0 then i else if i == 0 then j else 0

-- Whether two characters that an index reads are the same.
abbrev pub same_char : Option ℕ → Option ℕ → Bool
same_char (some x) (some y) = x == y
same_char none none = true
same_char _ _ = false

module _ (s1_chars s2_chars : List ℕ) where
  -- The body of the inner loop.
  unfoldable pub fill_cell : ℕ → ℕ → Matrix → Matrix
  fill_cell i j matrix =
      let cost =
        if same_char (get_elem? s1_chars (i - 1)) (get_elem? s2_chars (j - 1)) then 0 else 1 in
      set_cell i j
        (min (min (matrix (i - 1) j + 1) (matrix i (j - 1) + 1)) (matrix (i - 1) (j - 1) + cost))
        matrix

  -- The inner loop, over so many cells from `j` on.
  unfoldable pub fill_row : ℕ → ℕ → ℕ → Matrix → Matrix
  fill_row i j zero matrix = matrix
  fill_row i j (suc n) matrix = fill_row i (j + 1) n (fill_cell i j matrix)

  -- The outer loop, over so many rows from `i` on.
  unfoldable pub fill_rows : ℕ → ℕ → Matrix → Matrix
  fill_rows i zero matrix = matrix
  fill_rows i (suc n) matrix = fill_rows (i + 1) n (fill_row i 1 (length s2_chars) matrix)

  unfoldable pub levenshtein_distance : ℕ
  levenshtein_distance =
      let len1 = length s1_chars in
      let len2 = length s2_chars in
      if len1 == 0
      then len2
      else if len2 == 0
      then len1
      else fill_rows 1 len1 start_matrix len1 len2

-- What the comparison uses of the standard library: lower case as code points, the length in bytes of
-- such a text, and whether `1 - d / n >= threshold` in `f64`.
pub record Similarity : Type 1 where
  pub Threshold : Type 0
  pub lower : List ℕ → List ℕ
  pub byte_len : List ℕ → ℕ
  pub at_least : Threshold → ℕ → ℕ → Bool

module _ (r : Similarity) where
  open r use {Threshold, lower, byte_len, at_least}

  unfoldable pub fuzzy_match : List ℕ → List ℕ → Threshold → Bool
  fuzzy_match text pattern threshold =
      let text_lower = lower text in
      let pattern_lower = lower pattern in
      if codes_eq text_lower pattern_lower
      then true
      else if is_infix pattern_lower text_lower
      then true
      else at_least threshold (levenshtein_distance text_lower pattern_lower)
          (max (byte_len text_lower) (byte_len pattern_lower))
