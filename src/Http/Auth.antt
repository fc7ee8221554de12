-- ===== src/Http/Auth.antt =====
-- src/mcp/auth.rs: the tokens and addresses that the HTTP transport accepts. A text is the list of
-- its code points, and `as_bytes` its UTF-8 encoding. A call that panics gives `none`.
pub mod Bytes
pub mod Accepts
use Prim.Native.Nat.{bit_or, bit_xor}
use axterminator.Prelude.{
  codes_eq, ℕ, ◌+◌, ◌-◌, ◌/◌, ◌%◌, ◌^◌, zero, suc, Bool, true, false, not, ◌&&◌, List, [], ◌∷◌,
  ◌++◌, map, Option, none, some, Result, ok, err, if◌then◌else◌, String, codes, trim_start, length,
  take, ltb, leb, ◌==◌, map_option, replicate,
}

-- `std::net::IpAddr`, a version 6 address as one number.
pub data IpAddr : Type 0 where
  v4 : (a b c d : ℕ) → IpAddr
  v6 : ℕ → IpAddr

unfoldable pub is_loopback : IpAddr → Bool
is_loopback (IpAddr.v4 a b c d) = a == 127
is_loopback (IpAddr.v6 n) = n == 1

pub data AuthError : Type 0 where
  missing_header unsupported_scheme invalid_token unsafe_config : AuthError
  non_localhost_address : IpAddr → AuthError

pub data AuthConfig : Type 0 where
  localhost_only : AuthConfig
  bearer : List ℕ → AuthConfig

unfoldable pub is_localhost_only : AuthConfig → Bool
is_localhost_only AuthConfig.localhost_only = true
is_localhost_only (AuthConfig.bearer token) = false

unfoldable pub is_bearer : AuthConfig → Bool
is_bearer AuthConfig.localhost_only = false
is_bearer (AuthConfig.bearer token) = true

-- The bytes of a character, and those of a text.
unfoldable pub encode : ℕ → List ℕ
encode c =
    if ltb c 0x80
    then c ∷ []
    else if ltb c 0x800
    then (0xc0 + c / 64) ∷ (0x80 + c % 64) ∷ []
    else if ltb c 0x10000
    then (0xe0 + c / 4096) ∷ (0x80 + c / 64 % 64) ∷ (0x80 + c % 64) ∷ []
    else (0xf0 + c / 262144) ∷ (0x80 + c / 4096 % 64) ∷ (0x80 + c / 64 % 64) ∷ (0x80 + c % 64) ∷ []

unfoldable pub as_bytes : List ℕ → List ℕ
as_bytes [] = []
as_bytes (c ∷ s) = encode c ++ as_bytes s

-- `str::split_at`, of a number of bytes.
unfoldable pub split_at : ℕ → List ℕ → Option (List ℕ × List ℕ)
split_at n [] = if n == 0 then some ([], []) else none
split_at n (c ∷ s) =
    let rest = split_at (n - length (encode c)) s in
    if n == 0
    then some ([], c ∷ s)
    else if ltb n (length (encode c))
    then none
    else map_option (λ (p : List ℕ × List ℕ). (c ∷ p.0, p.1)) rest

unfoldable pub to_ascii_lowercase : ℕ → ℕ
to_ascii_lowercase b = if leb b'A' b && leb b b'Z' then b + 32 else b

unfoldable pub eq_ignore_ascii_case : List ℕ → List ℕ → Bool
eq_ignore_ascii_case s t =
    codes_eq (map to_ascii_lowercase (as_bytes s)) (map to_ascii_lowercase (as_bytes t))

-- The outer option is that of a panic.
unfoldable pub strip_bearer_scheme : List ℕ → Option (Option (List ℕ))
strip_bearer_scheme header =
    let trimmed = trim_start header in
    if ltb (length (as_bytes trimmed)) 7 then some none else elim (split_at 7 trimmed) [
      | none ↦ none
      | some p ↦
          if eq_ignore_ascii_case p.0 (codes "Bearer ")
          then some (some (trim_start p.1))
          else some none
    ]

-- The fold over the pairs of `zip`.
unfoldable pub xor_fold : ℕ → List ℕ → List ℕ → ℕ
xor_fold acc [] ys = acc
xor_fold acc (x ∷ xs) [] = acc
xor_fold acc (x ∷ xs) (y ∷ ys) = xor_fold (bit_or acc (bit_xor x y)) xs ys

unfoldable pub constant_time_eq : List ℕ → List ℕ → Bool
constant_time_eq a b = if not (length a == length b) then false else (xor_fold 0 a b == 0)

unfoldable pub validate_bearer : AuthConfig → List ℕ → Option (Result (Unit {0}) AuthError)
validate_bearer AuthConfig.localhost_only raw_header = some (ok tt)
validate_bearer (AuthConfig.bearer expected) raw_header = elim (strip_bearer_scheme raw_header) [
  | none ↦ none
  | some none ↦ some (err AuthError.unsupported_scheme)
  | some (some credential) ↦
      if constant_time_eq (as_bytes credential) (as_bytes expected)
      then some (ok tt)
      else some (err AuthError.invalid_token)
]

unfoldable pub validate_source_ip : AuthConfig → IpAddr → Result (Unit {0}) AuthError
validate_source_ip config addr =
    if is_localhost_only config && not (is_loopback addr)
    then err (AuthError.non_localhost_address addr)
    else ok tt

unfoldable pub validate_header : AuthConfig → Option (List ℕ) → Option (Result (Unit {0}) AuthError)
validate_header config none =
    if is_localhost_only config then some (ok tt) else some (err AuthError.missing_header)
validate_header config (some h) = validate_bearer config h

unfoldable pub check_bind_safety : AuthConfig → IpAddr → Result (Unit {0}) AuthError
check_bind_safety config bind_addr =
    if not (is_loopback bind_addr) && is_localhost_only config
    then err AuthError.unsafe_config
    else ok tt

-- `format!("{:0<64}", …)` fills with zeros on the right.
unfoldable pub make_test_token : List ℕ → List ℕ
make_test_token seed =
    let body = take 64 seed in codes "axt_" ++ (body ++ replicate (64 - length body) b'0')
