-- ===== src/Http/Post.antt =====
-- src/mcp/transport.rs, `post_mcp`: the answer to a POST, and what it does to the state.
pub mod Sender
pub mod Guards
use axterminator.Prelude.{
  ℕ, Bool, true, false, not, ◌&&◌, Option, none, some, List, [], ◌∷◌, ◌++◌, Result, ok, err,
  if◌then◌else◌, keep, has_none,
}
use axterminator.Json.{Json}
use axterminator.Server.Route.{
  RequestClass, RpcError, Outcome, Session, JsonRpcRequest, request_class, handle,
}
use axterminator.Http.Auth.{AuthConfig, AuthError, IpAddr}
use axterminator.Http.{
  HeaderMap, HttpLib, RpcHttpStatus, check_auth, check_modern_headers, http_status_for, code_of,
  cut_lines,
}

pub data Response : Type 0 where
  unauthorized : AuthError → Response
  panicked parse_error headers_rejected lock_poisoned no_content : Response
  rpc : RpcHttpStatus → Outcome → Response

abbrev is_modern : RequestClass → Bool
is_modern RequestClass.modern = true
is_modern _ = false

-- The handlers behind the routing act on a world: with the handler that a message was routed to and
-- the parameters, they give the code of the error, if it is one, and the bytes written to the sink.
pub record Handlers (Value : Type 0) : Type 1 where
  pub World : Type 0
  pub run_handler : Outcome → Option Value → World → (Option ℕ × List ℕ) × World

module _ (lib : HttpLib) (j : Json) (h : Handlers j.Value) where
  open lib use {from_utf8}
  open j use {Value}
  open h use {World}

  -- The server is behind a lock, which a panic poisons; `events` are those sent to the SSE clients.
  pub record AppState : Type 0 where
    pub validator : AuthConfig
    pub poisoned : Bool
    pub session : Session
    pub world : World
    pub events : List (List ℕ)

  -- The lines of the sink that are sent: none if it is no UTF-8.
  unfoldable pub notifications : List ℕ → List (List ℕ)
  notifications sink = elim (from_utf8 sink) [
    | none ↦ []
    | some text ↦ let (line, rest) = cut_lines text in keep (λ l. not (has_none l)) (line ∷ rest)
  ]

  -- An error of the routing is its own code, and no handler runs.
  unfoldable pub respond : Outcome → Option Value → World → (Option ℕ × List ℕ) × World
  respond (Outcome.error e) params w = ((some (code_of e), []), w)
  respond o params w = h.run_handler o params w

  -- `from_value` reads a request, and `parse` the parameters of `initialize`.
  module _ (from_value : Value → Option (JsonRpcRequest j)) (parse : Value → Option Bool) where
    unfoldable pub rejects : HeaderMap → JsonRpcRequest j → Bool
    rejects headers msg =
        msg.has_id
        && is_modern (request_class j msg)
        && not (check_modern_headers lib j headers msg)

    -- The call of the server, under its lock.
    unfoldable pub serve : JsonRpcRequest j → AppState → Response × AppState
    serve msg s =
        let (o, session) = handle j parse msg s.session in
        elim o [
          | none ↦ (Response.no_content, record s { session = session })
          | some outcome ↦
              let ((code, sink), world) = respond outcome msg.params s.world in
              (
                Response.rpc (http_status_for lib j msg code) outcome,
                record s {
                  session = session;
                  world = world;
                  events = s.events ++ notifications sink;
                },
              )
        ]

    -- `post_mcp` after the check of the sender.
    unfoldable pub process : HeaderMap → Value → AppState → Response × AppState
    process headers body s = elim (from_value body) [
      | none ↦ (Response.parse_error, s)
      | some msg ↦
          if rejects headers msg
          then (Response.headers_rejected, s)
          else if s.poisoned
          then (Response.lock_poisoned, s)
          else serve msg s
    ]

    unfoldable pub post_mcp : IpAddr → HeaderMap → Value → AppState → Response × AppState
    post_mcp peer headers body s = elim (check_auth lib headers peer s.validator) [
      | none ↦ (Response.panicked, s)
      | some (err e) ↦ (Response.unauthorized e, s)
      | some (ok _) ↦ process headers body s
    ]
