-- ===== src/Server/Route.antt =====
-- src/mcp/server.rs, `handle`, `dispatch`, `dispatch_legacy`, `dispatch_modern` and
-- `handle_notification`, with `request_class` of src/mcp/protocol.rs and `handle_initialize` of
-- src/mcp/server_handlers.rs: the phase of a session, and the handler that a message is routed to.
-- The answer of a handler is not part of it.
pub mod Admission
pub mod Handshake
use axterminator.Prelude.{
  ℕ, String, Bool, true, false, not, Option, none, some, List, [], ◌∷◌, if◌then◌else◌, str_eq,
  one_of, and_then,
}
use axterminator.Prelude.TextMaps
use axterminator.Json.{Json, get}

pub data Phase : Type 0 where
  uninitialized initializing running : Phase

abbrev pub is_running : Phase → Bool
is_running Phase.running = true
is_running _ = false

pub data RequestClass : Type 0 where
  legacy partial_class modern : RequestClass

pub data ToolCallScheduling : Type 0 where
  honor_task_meta run_now : ToolCallScheduling

pub data RpcError : Type 0 where
  invalid_params invalid_request method_not_found unsupported_protocol_version : RpcError

-- `by_method` is the handler that the named method has in the legacy dispatch.
pub data Outcome : Type 0 where
  error : RpcError → Outcome
  initialized pong tools_list discovered : Outcome
  tools_call : ToolCallScheduling → Outcome
  by_method : String → Outcome

pub record Session : Type 0 where
  pub phase : Phase
  pub client_supports_sampling : Bool

unfoldable pub session_new : Session
session_new = record { phase = Phase.uninitialized; client_supports_sampling = false }

unfoldable pub exempt_method : String → Bool
exempt_method method = one_of method (
    "initialize" ∷ "notifications/initialized" ∷ "ping" ∷ "resources/subscribe"
    ∷ "resources/unsubscribe" ∷ "tasks/list" ∷ "tasks/result" ∷ "tasks/cancel" ∷ [])

-- The methods with a handler of their own in a running legacy session, but for `tools/list` and
-- `tools/call`.
abbrev pub running_methods : List String
running_methods =
    "resources/list" ∷ "resources/templates/list" ∷ "resources/read" ∷ "resources/subscribe"
    ∷ "resources/unsubscribe" ∷ "prompts/list" ∷ "prompts/get" ∷ "tasks/list" ∷ "tasks/result"
    ∷ "tasks/cancel" ∷ []

abbrev pub supported_protocol_versions : List String
supported_protocol_versions = "2026-07-28" ∷ "2025-11-25" ∷ []

abbrev pub meta_protocol_version : String
meta_protocol_version = "io.modelcontextprotocol/protocolVersion"

abbrev pub meta_client_capabilities : String
meta_client_capabilities = "io.modelcontextprotocol/clientCapabilities"

abbrev pub is_some {ℓ} : {A : Type ℓ} → Option A → Bool
is_some none = false
is_some (some a) = true

module _ (j : Json) where
  open j use {Value, as_object, as_str}

  pub record JsonRpcRequest : Type 0 where
    pub has_id : Bool
    pub method : String
    pub params : Option Value

  unfoldable pub meta_map : JsonRpcRequest → Option (List (String × Value))
  meta_map msg =
      and_then (and_then msg.params as_object)
        (λ params. and_then (TextMaps.lookup "_meta" params) as_object)

  abbrev pub contains_key : String → List (String × Value) → Bool
  contains_key key m = is_some (TextMaps.lookup key m)

  unfoldable pub request_class : JsonRpcRequest → RequestClass
  request_class msg =
      if exempt_method msg.method then RequestClass.legacy else elim (meta_map msg) [
        | none ↦ RequestClass.legacy
        | some m ↦
            if contains_key meta_protocol_version m
            then RequestClass.modern
            else if contains_key meta_client_capabilities m
            then RequestClass.partial_class
            else RequestClass.legacy
      ]

  unfoldable pub meta_protocol_version_str : JsonRpcRequest → Option String
  meta_protocol_version_str msg =
      and_then (meta_map msg) (λ m. and_then (TextMaps.lookup meta_protocol_version m) as_str)

  -- `caps_present` of `dispatch_modern`; a value that is no object has no field.
  unfoldable pub caps_present : JsonRpcRequest → Bool
  caps_present msg =
      elim (and_then msg.params (λ params. and_then (get j params "_meta") as_object)) [
        | none ↦ false
        | some m ↦ contains_key meta_client_capabilities m
      ]

  -- `parse` is `serde_json::from_value::<InitializeParams>`: whether the capabilities have `sampling`.
  module _ (parse : Value → Option Bool) where
    unfoldable pub handle_initialize : Option Value → Session → Outcome × Session
    handle_initialize none s = (Outcome.error RpcError.invalid_params, s)
    handle_initialize (some v) s = elim (parse v) [
      | none ↦ (Outcome.error RpcError.invalid_params, s)
      | some sampling ↦ (
        Outcome.initialized,
        record { phase = Phase.initializing; client_supports_sampling = sampling },
      )
    ]

    -- The arms of `dispatch_legacy` after `initialize` and `ping`.
    unfoldable pub legacy_route : String → Phase → Outcome
    legacy_route method phase =
        if not (is_running phase)
        then Outcome.error RpcError.invalid_request
        else if str_eq method "tools/list"
        then Outcome.tools_list
        else if str_eq method "tools/call"
        then Outcome.tools_call ToolCallScheduling.honor_task_meta
        else if one_of method running_methods
        then Outcome.by_method method
        else Outcome.error RpcError.method_not_found

    unfoldable pub dispatch_legacy : JsonRpcRequest → Session → Outcome × Session
    dispatch_legacy msg s =
        if str_eq msg.method "initialize"
        then handle_initialize msg.params s
        else if str_eq msg.method "ping"
        then (Outcome.pong, s)
        else (legacy_route msg.method s.phase, s)

    -- The `match` of `dispatch_modern` on the method.
    unfoldable pub modern_route : JsonRpcRequest → Session → Outcome × Session
    modern_route msg s =
        if str_eq msg.method "tools/list"
        then (Outcome.tools_list, s)
        else if str_eq msg.method "tools/call"
        then (Outcome.tools_call ToolCallScheduling.run_now, s)
        else if str_eq msg.method "server/discover"
        then (Outcome.discovered, s)
        else if one_of msg.method (
            "resources/list" ∷ "resources/templates/list" ∷ "resources/read" ∷ "prompts/list"
            ∷ "prompts/get" ∷ [])
        then dispatch_legacy msg s
        else (Outcome.error RpcError.method_not_found, s)

    unfoldable pub dispatch_modern : JsonRpcRequest → Session → Outcome × Session
    dispatch_modern msg s = elim (meta_protocol_version_str msg) [
      | none ↦ (Outcome.error RpcError.invalid_params, s)
      | some version ↦
          if not (one_of version supported_protocol_versions)
          then (Outcome.error RpcError.unsupported_protocol_version, s)
          else if not (caps_present msg)
          then (Outcome.error RpcError.invalid_params, s)
          else modern_route msg s
    ]

    unfoldable pub dispatch : JsonRpcRequest → Session → Outcome × Session
    dispatch msg s = elim (request_class msg) [
      | legacy ↦ dispatch_legacy msg s
      | partial_class ↦ (Outcome.error RpcError.invalid_params, s)
      | modern ↦ dispatch_modern msg s
    ]

    unfoldable pub handle_notification : JsonRpcRequest → Session → Session
    handle_notification msg s =
        if str_eq msg.method "notifications/initialized"
        then elim s.phase [
          | uninitialized ↦ s
          | initializing ↦ record s { phase = Phase.running }
          | running ↦ s
        ]
        else s

    unfoldable pub handle : JsonRpcRequest → Session → Option Outcome × Session
    handle msg s =
        if not msg.has_id
        then (none, handle_notification msg s)
        else (let (o, s') = dispatch msg s in (some o, s'))
