-- ===== src/Http/Auth/Accepts.antt =====
-- src/mcp/auth.rs, `validate_header` and `check_auth` of src/mcp/transport.rs: which requests get
-- past them.
use axterminator.Prelude.{
  codes_eq_iff, ℕ, ◌+◌, ◌-◌, ◌≤◌, ◌≡◌, refl, sym, ap, ap₂, ◌∙◌, ◌↔◌, true, List, [], ◌∷◌, ◌++◌, map,
  Option, none, some, ok, codes, trim_start, length, length-append, length-map, arith,
}
use axterminator.Http.Auth.{
  AuthConfig, encode, as_bytes, split_at, to_ascii_lowercase, eq_ignore_ascii_case,
  strip_bearer_scheme, constant_time_eq, validate_bearer,
}
use axterminator.Http.Auth.Bytes.{constant_time_eq_iff, as_bytes-injective}

split_at-zero : (s : List ℕ) → split_at 0 s ≡ some ([], s)
unfolding split_at
split_at-zero [] = refl
split_at-zero (c ∷ s) = refl

encode-length : (c : ℕ) → 1 ≤ length (encode c)
unfolding encode
encode-length c = ground arith

split_at-append : (a b : List ℕ) → split_at (length (as_bytes a)) (a ++ b) ≡ some (a, b)
unfolding as_bytes split_at
split_at-append [] b = split_at-zero b
split_at-append (c ∷ a) b =
    ground
      (arith, length-append (encode c) (as_bytes a), encode-length c, shorter, split_at-append a b)
  where
    shorter :
        split_at (length (encode c ++ as_bytes a) - length (encode c)) (a ++ b)
        ≡ split_at (length (as_bytes a)) (a ++ b)
    shorter =
        ap (λ n. split_at n (a ++ b)) {x = length (encode c ++ as_bytes a) - length (encode c)}
          {y = length (as_bytes a)} (omega (arith, length-append (encode c) (as_bytes a)))

split_at-some : (n : ℕ) (s a b : List ℕ) → split_at n s ≡ some (a, b) → s ≡ a ++ b
unfolding split_at
split_at-some n [] a b h = ground (arith, h)
split_at-some n (c ∷ s) a b h =
    split (split_at (n - length (encode c)) s) refl (split_at-some (n - length (encode c)) s)
  where
    split :
        (o : Option (List ℕ × List ℕ))
        → split_at (n - length (encode c)) s ≡ o
        → ((a b : List ℕ) → split_at (n - length (encode c)) s ≡ some (a, b) → s ≡ a ++ b)
        → c ∷ s ≡ a ++ b
    split none e rest = ground (arith, h, e)
    split (some p) e rest = ground (arith, h, e, rest p.0 p.1 e)

-- The text is, after blanks, a scheme with the bytes of `Bearer ` up to ASCII case, and after
-- further blanks the token.
abbrev pub Presents : List ℕ → List ℕ → Type 0
Presents header token =
    (scheme : List ℕ) × (rest : List ℕ) × (trim_start header ≡ scheme ++ rest)
    × (map to_ascii_lowercase (as_bytes scheme) ≡ codes "bearer ")
    × (trim_start rest ≡ token)

lower_bearer : map to_ascii_lowercase (as_bytes (codes "Bearer ")) ≡ codes "bearer "
unfolding to_ascii_lowercase as_bytes encode
lower_bearer = refl

eq_ignore_ascii_case_iff :
    (s : List ℕ)
    → (eq_ignore_ascii_case s (codes "Bearer ") ≡ true)
      ↔ (map to_ascii_lowercase (as_bytes s) ≡ codes "bearer ")
unfolding eq_ignore_ascii_case
eq_ignore_ascii_case_iff s = rw lower_bearer (codes_eq_iff _ _)

as_bytes-append :
    (a b : List ℕ) → length (as_bytes (a ++ b)) ≡ length (as_bytes a) + length (as_bytes b)
unfolding as_bytes
as_bytes-append [] b = omega arith
as_bytes-append (c ∷ a) b = omega (
  arith,
  as_bytes-append a b,
  length-append (encode c) (as_bytes a),
  length-append (encode c) (as_bytes (a ++ b)),
)

strip_bearer_scheme-Presents :
    (header token : List ℕ) → strip_bearer_scheme header ≡ some (some token) → Presents header token
unfolding strip_bearer_scheme
strip_bearer_scheme-Presents header token h = split (split_at 7 (trim_start header)) refl
  where
    split :
        (o : Option (List ℕ × List ℕ)) → split_at 7 (trim_start header) ≡ o → Presents header token
    split none e = absurd (ground (arith, h, e))
    split (some (a, b)) e = (
      a,
      b,
      split_at-some 7 (trim_start header) a b e,
      (eq_ignore_ascii_case_iff a).0 (ground (arith, h, e)),
      ground (arith, h, e),
    )

Presents-strip_bearer_scheme :
    (header token : List ℕ) → Presents header token → strip_bearer_scheme header ≡ some (some token)
unfolding strip_bearer_scheme
Presents-strip_bearer_scheme header token (a, b, s, l, t) =
    let seven : length (as_bytes a) ≡ 7 =
      sym (length-map to_ascii_lowercase (as_bytes a)) ∙ ap length l in
    let cut : split_at 7 (trim_start header) ≡ some (a, b) =
      ap₂ split_at (sym seven) s ∙ split_at-append a b in
    let long : 7 ≤ length (as_bytes (trim_start header)) =
      rw s (omega (arith, as_bytes-append a b, seven)) in
    let same : eq_ignore_ascii_case a (codes "Bearer ") ≡ true = (eq_ignore_ascii_case_iff a).1 l in
    ground (arith, cut, long, same, t)

-- With a token configured, a header is accepted exactly if it presents that token: a call that
-- panics, another scheme and another token are no acceptance.
pub validate_bearer-Presents :
    (expected header : List ℕ)
    → (validate_bearer (AuthConfig.bearer expected) header ≡ some (ok tt))
      ↔ Presents header expected
unfolding validate_bearer
validate_bearer-Presents expected header = (forth, back)
  where
    forth :
        validate_bearer (AuthConfig.bearer expected) header ≡ some (ok tt)
        → Presents header expected
    forth h = split (strip_bearer_scheme header) refl
      where
        split :
            (o : Option (Option (List ℕ)))
            → strip_bearer_scheme header ≡ o
            → Presents header expected
        split none e = absurd (ground (arith, h, e))
        split (some none) e = absurd (ground (arith, h, e))
        split (some (some t)) e =
            let same : constant_time_eq (as_bytes t) (as_bytes expected) ≡ true =
              ground (arith, h, e) in
            let k : t ≡ expected =
              as_bytes-injective t expected ((constant_time_eq_iff _ _).0 same) in
            strip_bearer_scheme-Presents header expected (e ∙ ap (λ x. some (some x)) k)

    back :
        Presents header expected
        → validate_bearer (AuthConfig.bearer expected) header ≡ some (ok tt)
    back p =
        let same = (constant_time_eq_iff (as_bytes expected) (as_bytes expected)).1 refl in
        ground (arith, Presents-strip_bearer_scheme header expected p, same)
