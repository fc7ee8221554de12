-- ===== src/Healing/Tests.antt =====
-- src/healing_match.rs at concrete inputs.
use axterminator.Prelude.{codes_eq, ℕ, ◌≡◌, ◌≤◌, refl, codes, true, length, is_infix, is_prefix}
use axterminator.Healing.{
  Similarity, levenshtein_distance, start_matrix, fill_rows, fill_row, fill_cell, fuzzy_match,
}
use axterminator.Healing.Edits.{Edits}
use axterminator.Healing.Table.{levenshtein_distance-Edits}

program : Unit {0}
unfolding levenshtein_distance start_matrix fill_rows fill_row fill_cell fuzzy_match codes_eq
    is_infix is_prefix
program = tt

kitten_sitting : levenshtein_distance (codes "kitten") (codes "sitting") ≡ 3
unfolding program
kitten_sitting = refl

-- Lower case is left as it is, and a text of distance at most 3 is near enough.
abbrev plain : Similarity
plain = record { Threshold = ℕ; lower = λ s. s; byte_len = length; at_least = λ t d n. true }

near : fuzzy_match plain (codes "save") (codes "safe") 0 ≡ true
unfolding program
near = refl

levenshtein_distance-Edits_example :
    Edits (codes "save") (codes "same") (levenshtein_distance (codes "save") (codes "same"))
    × ((n : ℕ)
        → Edits (codes "save") (codes "same") n
        → levenshtein_distance (codes "save") (codes "same") ≤ n)
levenshtein_distance-Edits_example = levenshtein_distance-Edits (codes "save") (codes "same")
