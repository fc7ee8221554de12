-- ===== src/Http/Post/Guards.antt =====
-- src/mcp/transport.rs, `post_mcp`: what has been checked before the server is called.
use axterminator.Prelude.{
  codes_eq_iff, codes_eq, ℕ, ◌≡◌, refl, sym, ap, ◌∙◌, ◌⊎◌, inl, inr, ◌≢◌, Bool, true, false, List,
  codes, Option, none, some, Result, ok, err, str_eq, arith, and_then, map_option,
}
use axterminator.Json.{Json}
use axterminator.Server.Route.{
  RequestClass, ToolCallScheduling, Outcome, Session, JsonRpcRequest, request_class,
  meta_protocol_version_str, dispatch, handle,
}
use axterminator.Server.Route.Admission.{Admitted, dispatch-Admitted, dispatch-method}
use axterminator.Http.Auth.{AuthError, IpAddr}
use axterminator.Http.{
  HeaderMap, HttpLib, RpcHttpStatus, check_auth, check_modern_headers, check_name, header_text,
  decode_mcp_name, body_name, same_text,
}
use axterminator.Http.Post.Sender.{Authorised, check_auth-Authorised}
use axterminator.Http.Post.{Response, Handlers, AppState, rejects, serve, process, post_mcp}

module _ (lib : HttpLib) where
  same_text_iff : (o : Option (List ℕ)) (s : List ℕ) → (same_text o s ≡ true) → o ≡ some s
  unfolding same_text
  same_text_iff none s h = absurd (ground (arith, h))
  same_text_iff (some t) s h = ap some ((codes_eq_iff t s).0 h)

  module _ (j : Json) where
    open j use {Value}

    -- The name header is the name of the tool in the body.
    abbrev pub Named : HeaderMap → JsonRpcRequest j → Type 0
    Named headers msg =
        (name : List ℕ) × (and_then (header_text lib headers "mcp-name") (decode_mcp_name lib)
          ≡ some name)
        × (body_name lib j msg ≡ some name)

    -- The headers say what the body says.
    abbrev pub Matches : HeaderMap → JsonRpcRequest j → Type 0
    Matches headers msg =
        (header_text lib headers "mcp-method" ≡ some (codes msg.method))
        × ((version : List ℕ) × (header_text lib headers "mcp-protocol-version" ≡ some version)
            × (map_option codes (meta_protocol_version_str j msg) ≡ some version))
        × (str_eq msg.method "tools/call" ≡ true → Named headers msg)

    check_name-Named :
        (headers : HeaderMap) (msg : JsonRpcRequest j)
        → check_name lib j headers msg ≡ true
        → Named headers msg
    unfolding check_name
    check_name-Named headers msg h =
        split (and_then (header_text lib headers "mcp-name") (decode_mcp_name lib)) refl
      where
        split :
            (o : Option (List ℕ))
            → and_then (header_text lib headers "mcp-name") (decode_mcp_name lib) ≡ o
            → Named headers msg
        split none e = absurd (ground (arith, h, e))
        split (some name) e =
            (name, e, same_text_iff (body_name lib j msg) name (ground (arith, h, e)))

    check_modern_headers-Matches :
        (headers : HeaderMap) (msg : JsonRpcRequest j)
        → check_modern_headers lib j headers msg ≡ true
        → Matches headers msg
    unfolding check_modern_headers
    check_modern_headers-Matches headers msg h =
        split (header_text lib headers "mcp-protocol-version")
          (header_text lib headers "mcp-method") refl refl
      where
        body : Option (List ℕ)
        body = map_option codes (meta_protocol_version_str j msg)

        split :
            (v m : Option (List ℕ))
            → header_text lib headers "mcp-protocol-version" ≡ v
            → header_text lib headers "mcp-method" ≡ m
            → Matches headers msg
        split none m e f = absurd (ground (arith, h, e))
        split (some v) none e f = absurd (ground (arith, h, e, f))
        split (some v) (some m) e f =
            let version : same_text body v ≡ true = ground (arith, h, e, f) in
            let method : codes_eq m (codes msg.method) ≡ true = ground (arith, h, e, f) in
            (
              f ∙ ap some ((codes_eq_iff m (codes msg.method)).0 method),
              (v, e, same_text_iff body v version),
              λ t. check_name-Named headers msg (ground (arith, h, e, f, t)),
            )

    module _ (h : Handlers Value) (from_value : Value → Option (JsonRpcRequest j))
        (parse : Value → Option Bool) where
      abbrev pub refuses : Response → Bool
      refuses (Response.unauthorized e) = true
      refuses Response.panicked = true
      refuses _ = false

      -- A POST is either let in and processed, or not let in: then it is refused and leaves the state.
      pub post_mcp-Authorised :
          (peer : IpAddr) (headers : HeaderMap) (body : Value) (s : AppState lib j h)
          → (Authorised lib peer headers s.validator
              × (post_mcp lib j h from_value parse peer headers body s
                  ≡ process lib j h from_value parse headers body s))
            ⊎ (¬ (Authorised lib peer headers s.validator)
                × (refuses (post_mcp lib j h from_value parse peer headers body s).0 ≡ true)
                × ((post_mcp lib j h from_value parse peer headers body s).1 ≡ s))
      unfolding post_mcp
      post_mcp-Authorised peer headers body s = split (check_auth lib headers peer s.validator) refl
        where
          Lets : Type 0
          Lets = Authorised lib peer headers s.validator

          refused :
              (o : Option (Result (Unit {0}) AuthError))
              → check_auth lib headers peer s.validator ≡ o
              → o ≢ some (ok tt)
              → ¬ Lets
          refused o e n a = n (sym e ∙ (check_auth-Authorised lib headers peer s.validator).1 a)

          split :
              (o : Option (Result (Unit {0}) AuthError))
              → check_auth lib headers peer s.validator ≡ o
              → (Lets
                  × (post_mcp lib j h from_value parse peer headers body s
                      ≡ process lib j h from_value parse headers body s))
                ⊎ (¬ Lets
                    × (refuses (post_mcp lib j h from_value parse peer headers body s).0 ≡ true)
                    × ((post_mcp lib j h from_value parse peer headers body s).1 ≡ s))
          split none e =
              inr (refused none e (λ n. ground (arith, n)), ground (arith, e), ground (arith, e))
          split (some (err x)) e = inr (
            refused (some (err x)) e (λ n. ground (arith, n)),
            ground (arith, e),
            ground (arith, e),
          )
          split (some (ok x)) e =
              inl ((check_auth-Authorised lib headers peer s.validator).0 e, rw (e, post_mcp) refl)

      -- An answer of the server comes from a request with an id, whose headers match if it is modern.
      abbrev Dispatched : HeaderMap → Value → AppState lib j h → Outcome → JsonRpcRequest j → Type 0
      Dispatched headers body s o msg =
          (from_value body ≡ some msg)
          × ((dispatch j parse msg s.session).0 ≡ o)
          × (request_class j msg ≡ RequestClass.modern → Matches headers msg)

      handle-dispatch :
          (msg : JsonRpcRequest j) (s : Session) (o : Outcome)
          → (handle j parse msg s).0 ≡ some o
          → (msg.has_id ≡ true) × ((dispatch j parse msg s).0 ≡ o)
      unfolding handle
      handle-dispatch msg s o e = (ground (arith, e), ground (arith, e))

      serve-handle :
          (msg : JsonRpcRequest j) (s : AppState lib j h) (st : RpcHttpStatus) (o : Outcome)
          → (serve lib j h from_value parse msg s).0 ≡ Response.rpc st o
          → (handle j parse msg s.session).0 ≡ some o
      unfolding serve
      serve-handle msg s st o e = split (handle j parse msg s.session).0 refl
        where
          split :
              (a : Option Outcome)
              → (handle j parse msg s.session).0 ≡ a
              → (handle j parse msg s.session).0 ≡ some o
          split none f = absurd (ground (arith, e, f))
          split (some b) f = ground (arith, e, f)

      process-Dispatched :
          (headers : HeaderMap) (body : Value) (s : AppState lib j h) (st : RpcHttpStatus)
          (o : Outcome)
          → (process lib j h from_value parse headers body s).0 ≡ Response.rpc st o
          → (msg : JsonRpcRequest j) × Dispatched headers body s o msg
      unfolding process rejects
      process-Dispatched headers body s st o e = split (from_value body) refl
        where
          split :
              (q : Option (JsonRpcRequest j))
              → from_value body ≡ q
              → (msg : JsonRpcRequest j) × Dispatched headers body s o msg
          split none f = absurd (ground (arith, e, f))
          split (some msg) f =
              let served : (serve lib j h from_value parse msg s).0 ≡ Response.rpc st o =
                ground (arith, e, f) in
              let (id, sent) = handle-dispatch msg s.session o (serve-handle msg s st o served) in
              (
                msg,
                (
                  f,
                  sent,
                  λ k. check_modern_headers-Matches headers msg (ground (arith, e, f, id, k)),
                ),
              )

      -- A POST that is answered by a tool call comes from a sender that is let in; its body is a request
      -- of a tool call that the routing admits; and if the request is modern, the header for the name of
      -- the tool decodes to the name in the body, and those for method and version match too.
      pub post_mcp-Admitted :
          (peer : IpAddr) (headers : HeaderMap) (body : Value) (s : AppState lib j h)
          (st : RpcHttpStatus) (c : ToolCallScheduling)
          → (post_mcp lib j h from_value parse peer headers body s).0
            ≡ Response.rpc st (Outcome.tools_call c)
          → Authorised lib peer headers s.validator
            × ((msg : JsonRpcRequest j) × (from_value body ≡ some msg)
                × (str_eq msg.method "tools/call" ≡ true)
                × Admitted j parse c msg s.session
                × (request_class j msg ≡ RequestClass.modern
                    → Matches headers msg × Named headers msg))
      post_mcp-Admitted peer headers body s st c e =
          elim (post_mcp-Authorised peer headers body s) [
            | inr (n, r, k) ↦ absurd (ground (arith, e, r))
            | inl (a, p) ↦
                let (msg, (f, d, m)) =
                  process-Dispatched headers body s st (Outcome.tools_call c)
                    (sym (ap (λ q. q.0) p) ∙ e) in
                let t = dispatch-method j parse msg s.session c d in
                (a, (msg, f, t, dispatch-Admitted j parse msg s.session c d, λ k. (m k, (m k).2 t)))
          ]
