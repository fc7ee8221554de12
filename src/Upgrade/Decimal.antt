-- ===== src/Upgrade/Decimal.antt =====
-- The decimal numerals that src/upgrade.rs prints and parses: `u32` by the standard library.
use axterminator.Prelude.{
  ℕ, zero, suc, ◌+◌, ◌*◌, ◌-◌, ◌/◌, ◌%◌, ◌^◌, ◌<◌, ◌≡◌, refl, ◌∙◌, Bool, true, false, List, [], ◌∷◌,
  Option, none, some, ltb, if◌then◌else◌, arith, is_digit, has_none,
}

-- The digits of `n` in front of a text, for more fuel than `n`.
unfoldable pub digits : ℕ → ℕ → List ℕ → List ℕ
digits zero n out = out
digits (suc fuel) n out =
    let rest = digits fuel (n / 10) ((b'0' + n % 10) ∷ out) in
    if ltb n 10 then (b'0' + n) ∷ out else rest

unfoldable pub print_decimal : ℕ → List ℕ
print_decimal n = digits (suc n) n []

-- `parse::<u32>` from the digits read so far; a text of no digits, or a value that does not fit, is
-- refused.
unfoldable pub read_digits : ℕ → List ℕ → Option ℕ
read_digits acc [] = some acc
read_digits acc (c ∷ s) =
    let value = acc * 10 + (c - b'0') in
    let rest = read_digits value s in
    if is_digit c then (if ltb value (2 ^ 32) then rest else none) else none

unfoldable pub parse_u32 : List ℕ → Option ℕ
parse_u32 [] = none
parse_u32 (c ∷ s) = read_digits 0 (c ∷ s)

-- Every digit is one.
abbrev pub all_digits : List ℕ → Bool
all_digits [] = true
all_digits (c ∷ s) = let rest = all_digits s in if is_digit c then rest else false

digits-all_digits :
    (fuel n : ℕ) (out : List ℕ) → all_digits out ≡ true → all_digits (digits fuel n out) ≡ true
unfolding digits
digits-all_digits zero n out h = h
digits-all_digits (suc fuel) n out h =
    ground (arith, h, digits-all_digits fuel (n / 10) ((b'0' + n % 10) ∷ out))

digits-has_none :
    (fuel n : ℕ) (out : List ℕ) → has_none out ≡ false → has_none (digits fuel n out) ≡ false
unfolding digits
digits-has_none zero n out h = h
digits-has_none (suc fuel) n out h =
    ground (arith, digits-has_none fuel (n / 10) ((b'0' + n % 10) ∷ out))

pub print_decimal-all_digits : (n : ℕ) → all_digits (print_decimal n) ≡ true
unfolding print_decimal
print_decimal-all_digits n = digits-all_digits (suc n) n [] refl

-- Reading the digits of `n` in front of a text comes to reading the text after `n`.
read_digits-digits :
    (fuel n : ℕ) (out : List ℕ)
    → n < fuel
    → n < 2 ^ 32
    → read_digits 0 (digits fuel n out) ≡ read_digits n out
unfolding digits read_digits
read_digits-digits zero n out h k = absurd (omega arith)
read_digits-digits (suc fuel) n out h k =
    ground (arith, h, k, read_digits-digits fuel (n / 10) ((b'0' + n % 10) ∷ out))

parse_u32-read_digits : (s : List ℕ) → has_none s ≡ false → parse_u32 s ≡ read_digits 0 s
unfolding parse_u32
parse_u32-read_digits [] h = absurd (ground arith)
parse_u32-read_digits (c ∷ s) h = refl

pub parse_u32-print_decimal : (n : ℕ) → n < 2 ^ 32 → parse_u32 (print_decimal n) ≡ some n
unfolding print_decimal
parse_u32-print_decimal n h =
    parse_u32-read_digits (digits (suc n) n []) some_digit
    ∙ read_digits-digits (suc n) n [] (omega arith) h
    ∙ unfold read_digits in refl
  where
    some_digit : has_none (digits (suc n) n []) ≡ false
    some_digit = unfold digits in ground (arith, digits-has_none n (n / 10) ((b'0' + n % 10) ∷ []))
