-- ===== src/Upgrade/Version.antt =====
-- src/upgrade.rs, `SemVer`: a version as a triple, its parser and its print.
use axterminator.Prelude.{
  ℕ, ◌<◌, ◌^◌, ◌≡◌, refl, sym, ap, ◌∙◌, Bool, true, false, List, [], ◌∷◌, ◌++◌, Option, none, some,
  if◌then◌else◌, ◌==◌, ◌&&◌, ◌||◌, ltb, arith, is_digit, map_option,
}
use mathlib.Core.List.{append_assoc, append-nil}
use axterminator.Prelude.OptionDo.{◌>>=◌}
use axterminator.Upgrade.Decimal.{
  print_decimal, parse_u32, all_digits, print_decimal-all_digits, parse_u32-print_decimal,
}

pub record SemVer : Type 0 where
  pub major : ℕ
  pub minor : ℕ
  pub patch : ℕ

-- A text split at its first dot, if it has one.
unfoldable pub split_dot : List ℕ → Option (List ℕ × List ℕ)
split_dot [] = none
split_dot (c ∷ s) =
    let rest = map_option (λ (p : List ℕ × List ℕ). (c ∷ p.0, p.1)) (split_dot s) in
    if c == b'.' then some ([], s) else rest

-- `p.split(|c| !c.is_ascii_digit()).next()`
unfoldable pub leading_digits : List ℕ → List ℕ
leading_digits [] = []
leading_digits (c ∷ s) = let rest = leading_digits s in if is_digit c then c ∷ rest else []

unfoldable pub number : List ℕ → Option ℕ
number p = parse_u32 (leading_digits p)

-- `splitn(3, '.')`: the third part keeps any further dot.
unfoldable pub parse : List ℕ → Option SemVer
parse s = do
  (first, after_first) ← split_dot s
  (second, third) ← split_dot after_first
  major ← number first
  minor ← number second
  patch ← number third
  some (record { major = major; minor = minor; patch = patch })

-- `Display`
unfoldable pub print : SemVer → List ℕ
print v =
    print_decimal v.major ++ (b'.' ∷ (print_decimal v.minor ++ (b'.' ∷ print_decimal v.patch)))

-- The derived order, of the parts in order.
unfoldable pub version_lt : SemVer → SemVer → Bool
version_lt v w =
    ltb v.major w.major
    || (v.major == w.major && (ltb v.minor w.minor || (v.minor == w.minor && ltb v.patch w.patch)))

-- What may follow a version: nothing, or a text that starts with no digit.
abbrev pub ends_number : List ℕ → Bool
ends_number [] = true
ends_number (c ∷ s) = if is_digit c then false else true

leading_digits-append :
    (ds s : List ℕ) → all_digits ds ≡ true → ends_number s ≡ true → leading_digits (ds ++ s) ≡ ds
unfolding leading_digits
leading_digits-append [] [] h k = refl
leading_digits-append [] (c ∷ s) h k = ground (arith, k)
leading_digits-append (d ∷ ds) s h k = ground (arith, h, k, leading_digits-append ds s)

split_dot-append :
    (ds s : List ℕ) → all_digits ds ≡ true → split_dot (ds ++ (b'.' ∷ s)) ≡ some (ds, s)
unfolding split_dot
split_dot-append [] s h = refl
split_dot-append (d ∷ ds) s h = ground (arith, h, split_dot-append ds s)

number-print_decimal :
    (n : ℕ) (s : List ℕ)
    → n < 2 ^ 32
    → ends_number s ≡ true
    → number (print_decimal n ++ s) ≡ some n
unfolding number
number-print_decimal n s h k =
    ap parse_u32 (leading_digits-append (print_decimal n) s (print_decimal-all_digits n) k)
    ∙ parse_u32-print_decimal n h

-- The parts of a version fit into `u32`.
pub record Fits (v : SemVer) : Type 0 where
  pub major : v.major < 2 ^ 32
  pub minor : v.minor < 2 ^ 32
  pub patch : v.patch < 2 ^ 32

-- A version whose parts are `u32` is read back from its print, whatever suffix follows that starts
-- with no digit, as that of a pre-release.
pub parse-print :
    (v : SemVer) (suffix : List ℕ)
    → Fits v
    → ends_number suffix ≡ true
    → parse (print v ++ suffix) ≡ some v
unfolding parse print
parse-print v suffix f k =
    rw
      (
        append_assoc (print_decimal v.major)
            (b'.' ∷ (print_decimal v.minor ++ (b'.' ∷ print_decimal v.patch))) suffix,
        split_dot-append (print_decimal v.major)
            ((print_decimal v.minor ++ (b'.' ∷ print_decimal v.patch)) ++ suffix)
            (print_decimal-all_digits v.major),
        append_assoc (print_decimal v.minor) (b'.' ∷ print_decimal v.patch) suffix,
        split_dot-append (print_decimal v.minor) (print_decimal v.patch ++ suffix)
            (print_decimal-all_digits v.minor),
        alone v.major f.major,
        alone v.minor f.minor,
        number-print_decimal v.patch suffix f.patch k,
      )
      refl
  where
    alone : (n : ℕ) → n < 2 ^ 32 → number (print_decimal n) ≡ some n
    alone n h = ap number (sym (append-nil (print_decimal n))) ∙ number-print_decimal n [] h refl
