-- ===== src/Http.antt =====
-- src/mcp/transport.rs, the module `http`: a POST of a JSON-RPC message, in front of the routing of
-- Server/Route. The check of its sender is in Http/Auth. A text is the list of its code points.
mod Bits
pub mod Auth
pub mod Post
mod Tests
use axterminator.Prelude.{
  codes_eq, ℕ, String, Bool, true, false, not, ◌&&◌, ◌||◌, Option, none, some, List, [], ◌∷◌, ◌++◌,
  map, Result, ok, err, if◌then◌else◌, codes, str_eq, and_then, map_option, leb, ◌==◌, keep,
  has_none,
}
use axterminator.Prelude.TextMaps
use axterminator.Json.{Json, get}
use axterminator.Server.Route.{
  RequestClass, RpcError, Outcome, Session, JsonRpcRequest, is_some, meta_map, request_class,
  meta_protocol_version_str, contains_key, meta_protocol_version, meta_client_capabilities, handle,
}
use axterminator.Http.Auth.{AuthConfig, AuthError, IpAddr, validate_source_ip, validate_header}

-- The codes of errors, without their sign.
abbrev pub protocol_header_rejected : ℕ
protocol_header_rejected = 32020

unfoldable pub code_of : RpcError → ℕ
code_of RpcError.invalid_params = 32602
code_of RpcError.invalid_request = 32600
code_of RpcError.method_not_found = 32601
code_of RpcError.unsupported_protocol_version = 32022

pub data RpcHttpStatus : Type 0 where
  status_ok bad_request not_found : RpcHttpStatus

-- A `HeaderMap`, as it is read: by name, and all values.
pub record HeaderMap : Type 0 where
  pub get_header : String → Option (List ℕ)
  pub values : List (List ℕ)

-- What the transport uses of the libraries, on bytes: the text of a header's value, the text of a
-- UTF-8 string, and base 64.
pub record HttpLib : Type 0 where
  pub to_str : List ℕ → Option (List ℕ)
  pub from_utf8 : List ℕ → Option (List ℕ)
  pub base64_decode : List ℕ → Option (List ℕ)

unfoldable pub same_text : Option (List ℕ) → List ℕ → Bool
same_text none s = false
same_text (some t) s = codes_eq t s

unfoldable pub strip_prefix : List ℕ → List ℕ → Option (List ℕ)
strip_prefix [] s = some s
strip_prefix (c ∷ p) [] = none
strip_prefix (c ∷ p) (d ∷ s) = if c == d then strip_prefix p s else none

unfoldable pub strip_suffix : List ℕ → List ℕ → Option (List ℕ)
strip_suffix p [] = if has_none p then some [] else none
strip_suffix p (c ∷ s) =
    let rest = strip_suffix p s in if codes_eq p (c ∷ s) then some [] else map_option (◌∷◌ c) rest

abbrev pub starts_line_feed : List ℕ → Bool
starts_line_feed [] = false
starts_line_feed (c ∷ s) = c == b'\n'

-- `str::lines`, as the first line and the rest; a text that ends with a line feed has one more,
-- empty.
unfoldable pub cut_lines : List ℕ → List ℕ × List (List ℕ)
cut_lines [] = ([], [])
cut_lines (c ∷ s) =
    let (line, rest) = cut_lines s in
    if c == b'\n'
    then ([], line ∷ rest)
    else if c == b'\r' && starts_line_feed s
    then (line, rest)
    else (c ∷ line, rest)

module _ (lib : HttpLib) where
  open lib use {to_str, from_utf8, base64_decode}

  -- The outer option is that of a panic.
  unfoldable pub check_auth : HeaderMap → IpAddr → AuthConfig → Option (Result (Unit {0}) AuthError)
  check_auth headers peer validator = elim (validate_source_ip validator peer) [
    | err e ↦ some (err e)
    | ok _ ↦ validate_header validator (and_then (headers.get_header "Authorization") to_str)
  ]

  unfoldable pub byte_allowed : ℕ → Bool
  byte_allowed byte = byte == 0x09 || byte == 0x20 || (leb 0x21 byte && leb byte 0x7e)

  unfoldable pub all_bytes : (ℕ → Bool) → List ℕ → Bool
  all_bytes p [] = true
  all_bytes p (b ∷ bs) = p b && all_bytes p bs

  unfoldable pub values_allowed : List (List ℕ) → Bool
  values_allowed [] = true
  values_allowed (v ∷ vs) = all_bytes byte_allowed v && values_allowed vs

  unfoldable pub header_bytes_allowed : HeaderMap → Bool
  header_bytes_allowed headers = values_allowed headers.values

  unfoldable pub header_text : HeaderMap → String → Option (List ℕ)
  header_text headers name = and_then (headers.get_header name) from_utf8

  -- `none` is the rejection.
  unfoldable pub decode_mcp_name : List ℕ → Option (List ℕ)
  decode_mcp_name raw =
      elim (and_then (strip_prefix (codes "=?base64?") raw) (strip_suffix (codes "?="))) [
        | none ↦ some raw
        | some payload ↦ and_then (base64_decode payload) from_utf8
      ]

  module _ (j : Json) where
    open j use {Value, as_str}

    unfoldable pub body_name : JsonRpcRequest j → Option (List ℕ)
    body_name msg =
        map_option codes (and_then (and_then msg.params (λ params. get j params "name")) as_str)

    -- The arm of `tools/call`.
    unfoldable pub check_name : HeaderMap → JsonRpcRequest j → Bool
    check_name headers msg = elim (and_then (header_text headers "mcp-name") decode_mcp_name) [
      | none ↦ false
      | some decoded ↦ same_text (body_name msg) decoded
    ]

    -- Whether there is no rejection; all rejections are the same error.
    unfoldable pub check_modern_headers : HeaderMap → JsonRpcRequest j → Bool
    check_modern_headers headers msg =
        if not (header_bytes_allowed headers)
        then false
        else elim (header_text headers "mcp-protocol-version") [
          | none ↦ false
          | some version_header ↦ elim (header_text headers "mcp-method") [
            | none ↦ false
            | some method_header ↦
                if not
                  (same_text (map_option codes (meta_protocol_version_str j msg)) version_header)
                then false
                else if not (codes_eq method_header (codes msg.method))
                then false
                else if str_eq msg.method "tools/call"
                then check_name headers msg
                else true
          ]
        ]

    unfoldable pub modern_check_invalid_params : JsonRpcRequest j → Bool
    modern_check_invalid_params msg = elim (meta_map j msg) [
      | none ↦ false
      | some meta ↦
          elim (TextMaps.lookup meta_protocol_version meta) [
            | none ↦ false
            | some version ↦ not (is_some (as_str version))
          ]
          || not (contains_key j meta_client_capabilities meta)
    ]

    unfoldable pub http_status_for : JsonRpcRequest j → Option ℕ → RpcHttpStatus
    http_status_for msg none = RpcHttpStatus.status_ok
    http_status_for msg (some code) = elim (request_class j msg) [
      | RequestClass.legacy ↦ RpcHttpStatus.status_ok
      | RequestClass.partial_class ↦
          if code == code_of RpcError.invalid_params
          then RpcHttpStatus.bad_request
          else RpcHttpStatus.status_ok
      | RequestClass.modern ↦
          if code == protocol_header_rejected
            || code == code_of RpcError.unsupported_protocol_version
          then RpcHttpStatus.bad_request
          else if code == code_of RpcError.invalid_params && modern_check_invalid_params msg
          then RpcHttpStatus.bad_request
          else if code == code_of RpcError.method_not_found
          then RpcHttpStatus.not_found
          else RpcHttpStatus.status_ok
    ]
