-- ===== src/Http/Auth/Bytes.antt =====
-- src/mcp/auth.rs, `constant_time_eq` on the bytes of two texts: when they are the same.
use Prim.Native.Nat.{bit_or, bit_xor}
use axterminator.Prelude.{
  ℕ, ◌≡◌, refl, sym, ap₂, ◌↔◌, subst, true, List, [], ◌∷◌, ◌++◌, length, arith,
}
use axterminator.Http.Bits.{bit_xor-zero, bit_xor-same, bit_or-zero}
use axterminator.Http.Auth.{encode, as_bytes, xor_fold, constant_time_eq}

xor_fold-zero :
    (acc : ℕ) (a b : List ℕ) → length a ≡ length b → xor_fold acc a b ≡ 0 → (acc ≡ 0) × (a ≡ b)
unfolding xor_fold
xor_fold-zero acc [] [] l h = (h, refl)
xor_fold-zero acc [] (y ∷ b) l h = absurd (omega arith)
xor_fold-zero acc (x ∷ a) [] l h = absurd (omega arith)
xor_fold-zero acc (x ∷ a) (y ∷ b) l h =
    let (k, e) = xor_fold-zero (bit_or acc (bit_xor x y)) a b (omega arith) h in
    let (z, d) = bit_or-zero acc (bit_xor x y) k in (z, ap₂ ◌∷◌ (bit_xor-zero x y d) e)

xor_fold-same : (a : List ℕ) → xor_fold 0 a a ≡ 0
unfolding xor_fold
xor_fold-same [] = refl
xor_fold-same (x ∷ a) = rw (bit_xor-same x) (xor_fold-same a)

pub constant_time_eq_iff : (a b : List ℕ) → (constant_time_eq a b ≡ true) ↔ (a ≡ b)
unfolding constant_time_eq
constant_time_eq_iff a b = (forth, back)
  where
    forth : constant_time_eq a b ≡ true → a ≡ b
    forth h = (xor_fold-zero 0 a b (ground (arith, h)) (ground (arith, h))).1

    same : constant_time_eq a a ≡ true
    same = ground (arith, xor_fold-same a)

    back : a ≡ b → constant_time_eq a b ≡ true
    back e = subst (λ c. constant_time_eq a c ≡ true) e same

-- The code is free of prefixes.
encode-append : (c d : ℕ) (r s : List ℕ) → encode c ++ r ≡ encode d ++ s → (c ≡ d) × (r ≡ s)
unfolding encode
encode-append c d r s h = ground (arith, h)

nonempty : (c : ℕ) (r : List ℕ) → ¬ (encode c ++ r ≡ [])
unfolding encode
nonempty c r h = ground (arith, h)

pub as_bytes-injective : (s t : List ℕ) → as_bytes s ≡ as_bytes t → s ≡ t
unfolding as_bytes
as_bytes-injective [] [] h = refl
as_bytes-injective [] (d ∷ t) h = absurd (nonempty d (as_bytes t) (sym h))
as_bytes-injective (c ∷ s) [] h = absurd (nonempty c (as_bytes s) h)
as_bytes-injective (c ∷ s) (d ∷ t) h =
    let (e, k) = encode-append c d (as_bytes s) (as_bytes t) h in
    ap₂ ◌∷◌ e (as_bytes-injective s t k)
