-- ===== src/Http/Post/Sender.antt =====
-- src/mcp/transport.rs, `check_auth`: which senders are let in.
use axterminator.Prelude.{ℕ, ◌≡◌, refl, ◌↔◌, true, List, Option, none, some, ok, arith, and_then}
use axterminator.Http.Auth.{
  AuthConfig, IpAddr, is_loopback, is_localhost_only, validate_source_ip, validate_header,
  validate_bearer,
}
use axterminator.Http.Auth.Accepts.{Presents, validate_bearer-Presents}
use axterminator.Http.{HeaderMap, HttpLib, check_auth}

module _ (lib : HttpLib) where
  open lib use {to_str}

  abbrev pub credentials : HeaderMap → Option (List ℕ)
  credentials headers = and_then (headers.get_header "Authorization") to_str

  -- The sender is let in: from this host if there is no token, and else with the token.
  abbrev pub Authorised : IpAddr → HeaderMap → AuthConfig → Type 0
  Authorised peer headers AuthConfig.localhost_only = is_loopback peer ≡ true
  Authorised peer headers (AuthConfig.bearer token) =
      (header : List ℕ) × (credentials headers ≡ some header) × Presents header token

  pub check_auth-Authorised :
      (headers : HeaderMap) (peer : IpAddr) (config : AuthConfig)
      → (check_auth lib headers peer config ≡ some (ok tt)) ↔ Authorised peer headers config
  unfolding check_auth validate_source_ip validate_header is_localhost_only validate_bearer
  check_auth-Authorised headers peer AuthConfig.localhost_only =
      (λ h. ground (arith, h), λ h. split (credentials headers) refl h)
    where
      split :
          (o : Option (List ℕ))
          → credentials headers ≡ o
          → is_loopback peer ≡ true
          → check_auth lib headers peer AuthConfig.localhost_only ≡ some (ok tt)
      split none e h = ground (arith, e, h)
      split (some s) e h = ground (arith, e, h)
  check_auth-Authorised headers peer (AuthConfig.bearer token) =
      (λ h. forth (credentials headers) refl h, back)
    where
      forth :
          (o : Option (List ℕ))
          → credentials headers ≡ o
          → check_auth lib headers peer (AuthConfig.bearer token) ≡ some (ok tt)
          → Authorised peer headers (AuthConfig.bearer token)
      forth none e h = absurd (ground (arith, h, e))
      forth (some s) e h = (s, e, (validate_bearer-Presents token s).0 (ground (arith, h, e)))

      back :
          Authorised peer headers (AuthConfig.bearer token)
          → check_auth lib headers peer (AuthConfig.bearer token) ≡ some (ok tt)
      back (s, e, p) = ground (arith, e, (validate_bearer-Presents token s).1 p)
