-- ===== src/Http/Tests.antt =====
-- src/mcp/auth.rs and src/mcp/transport.rs at concrete inputs.
use axterminator.Prelude.{
  codes_eq, ℕ, ◌≡◌, refl, ◌⊎◌, String, Bool, true, false, Option, none, some, List, [], ◌∷◌, ok,
  err, codes, trim_start, is_whitespace, str_eq, suc, if◌then◌else◌,
}
use axterminator.Prelude.TextMaps
use axterminator.Json.{Json, get}
use axterminator.Server.Route.{
  RequestClass, ToolCallScheduling, Outcome, JsonRpcRequest, session_new, exempt_method, meta_map,
  request_class, meta_protocol_version_str, caps_present, modern_route, dispatch_modern, dispatch,
  handle,
}
use axterminator.Server.Route.Admission.{Admitted}
use axterminator.Http.Auth.{
  AuthConfig, AuthError, IpAddr, as_bytes, encode, split_at, to_ascii_lowercase,
  eq_ignore_ascii_case, strip_bearer_scheme, xor_fold, constant_time_eq, validate_bearer,
  validate_source_ip, validate_header, is_localhost_only,
}
use axterminator.Http.{
  HeaderMap, HttpLib, RpcHttpStatus, check_auth, same_text, strip_prefix, strip_suffix,
  byte_allowed, all_bytes, values_allowed, header_bytes_allowed, header_text, decode_mcp_name,
  body_name, check_name, check_modern_headers, http_status_for,
}
use axterminator.Http.Post.{
  Response, Handlers, AppState, respond, rejects, serve, process, post_mcp, notifications,
}
use axterminator.Http.Post.Sender.{Authorised}
use axterminator.Http.Post.Guards.{Matches, Named, refuses, post_mcp-Authorised, post_mcp-Admitted}

program : Unit {0}
unfolding trim_start is_whitespace as_bytes encode split_at to_ascii_lowercase codes_eq
    eq_ignore_ascii_case strip_bearer_scheme xor_fold constant_time_eq validate_bearer
    validate_source_ip validate_header is_localhost_only check_auth same_text strip_prefix
    strip_suffix byte_allowed all_bytes values_allowed header_bytes_allowed header_text
    decode_mcp_name body_name check_name check_modern_headers http_status_for respond rejects serve
    process post_mcp notifications exempt_method meta_map request_class meta_protocol_version_str
    caps_present modern_route dispatch_modern dispatch handle TextMaps.lookup get session_new
program = tt

accepted :
    validate_bearer (AuthConfig.bearer (codes "axt_1")) (codes " BEARER  axt_1") ≡ some (ok tt)
unfolding program
accepted = refl

longer_token :
    validate_bearer (AuthConfig.bearer (codes "axt_1")) (codes "Bearer axt_12")
    ≡ some (err AuthError.invalid_token)
unfolding program
longer_token = refl

-- The seventh byte is in the middle of a character.
split_character : validate_bearer (AuthConfig.bearer (codes "axt_1")) (codes "Beareré axt_1") ≡ none
unfolding program
split_character = refl

-- The JSON values of the tests: a text, the parameters of a modern call, and their `_meta`.
data Doc : Type 0 where
  text : String → Doc
  params meta : Doc

abbrev doc_object : Doc → Option (List (String × Doc))
doc_object params = some (("_meta", meta) ∷ ("name", text "ax_list") ∷ [])
doc_object meta = some (
    ("io.modelcontextprotocol/protocolVersion", text "2026-07-28")
    ∷ ("io.modelcontextprotocol/clientCapabilities", text "")
    ∷ [])
doc_object (text s) = none

abbrev doc_str : Doc → Option String
doc_str (text s) = some s
doc_str _ = none

abbrev docs : Json
docs = record {
  Value = Doc;
  as_object = doc_object;
  as_str = doc_str;
  as_array = λ d. none;
  as_bool = λ d. none;
  as_number = λ d. none;
}

-- A library for ASCII, whose base 64 decodes nothing.
abbrev ascii : HttpLib
ascii = record { to_str = λ s. some s; from_utf8 = λ s. some s; base64_decode = λ s. none }

-- Handlers that write a line and count their calls.
abbrev counting : Handlers Doc
counting = record { World = ℕ; run_handler = λ o p n. ((none, codes "{}\n"), suc n) }

abbrev find_header : String → Option (List ℕ)
find_header name =
    if str_eq name "Authorization"
    then some (codes "Bearer axt_1")
    else if str_eq name "mcp-method"
    then some (codes "tools/call")
    else if str_eq name "mcp-name"
    then some (codes "ax_list")
    else if str_eq name "mcp-protocol-version"
    then some (codes "2026-07-28")
    else none

abbrev headers : HeaderMap
headers = record {
  get_header = find_header;
  values = codes "Bearer axt_1" ∷ codes "tools/call" ∷ [];
}

abbrev start : AppState ascii docs counting
start = record {
  validator = AuthConfig.bearer (codes "axt_1");
  poisoned = false;
  session = session_new;
  world = 0;
  events = [];
}

abbrev read : Doc → Option (JsonRpcRequest docs)
read d = some (record { has_id = true; method = "tools/call"; params = some params })

abbrev sampling : Doc → Option Bool
sampling d = none

abbrev peer : IpAddr
peer = IpAddr.v4 10 0 0 1

answered :
    (post_mcp ascii docs counting read sampling peer headers (text "") start).0
    ≡ Response.rpc RpcHttpStatus.status_ok (Outcome.tools_call ToolCallScheduling.run_now)
unfolding program
answered = refl

post_mcp-Authorised_example :
    (Authorised ascii peer headers start.validator
      × (post_mcp ascii docs counting read sampling peer headers (text "") start
          ≡ process ascii docs counting read sampling headers (text "") start))
    ⊎ (¬ (Authorised ascii peer headers start.validator)
        × (refuses ascii docs counting read sampling
              (post_mcp ascii docs counting read sampling peer headers (text "") start).0
            ≡ true)
        × ((post_mcp ascii docs counting read sampling peer headers (text "") start).1 ≡ start))
post_mcp-Authorised_example =
    post_mcp-Authorised ascii docs counting read sampling peer headers (text "") start

post_mcp-Admitted_example :
    Authorised ascii peer headers start.validator
    × ((msg : JsonRpcRequest docs) × (read (text "") ≡ some msg)
        × (str_eq msg.method "tools/call" ≡ true)
        × Admitted docs sampling ToolCallScheduling.run_now msg start.session
        × (request_class docs msg ≡ RequestClass.modern
            → Matches ascii docs headers msg × Named ascii docs headers msg))
post_mcp-Admitted_example =
    post_mcp-Admitted ascii docs counting read sampling peer headers (text "") start
      RpcHttpStatus.status_ok ToolCallScheduling.run_now answered
