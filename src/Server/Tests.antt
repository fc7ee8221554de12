-- ===== src/Server/Tests.antt =====
-- src/mcp/server.rs and src/mcp/server_handlers.rs at concrete inputs.
use axterminator.Prelude.{
  ◌≡◌, refl, String, Bool, true, false, Option, none, some, List, [], ◌∷◌, ◌⊎◌,
}
use axterminator.Prelude.TextMaps
use axterminator.Json.{Json, get}
use axterminator.Security.{SecurityMode, SecurityGuard, instant}
use axterminator.Server.{Tools, Desk, dispatch_tool, affected_uris, notify_subscribed}
use axterminator.Server.Gates.{Ran, Refused, dispatch_tool-Ran}
use axterminator.Server.Calls.{handle_tools_call, Handled, handle_tools_call-Handled}
use axterminator.Server.Route.{
  Phase, ToolCallScheduling, Outcome, session_new, exempt_method, JsonRpcRequest, meta_map,
  request_class, meta_protocol_version_str, caps_present, handle_initialize, dispatch_legacy,
  modern_route, dispatch_modern, dispatch, handle_notification, handle,
}
use axterminator.Server.Route.Admission.{Admitted, dispatch-Admitted}
use axterminator.Server.Route.Handshake.{handshake, handle_all, handle_all-handshake}

-- The JSON values of the tests: a text, the parameters of a modern call, and their `_meta`.
data Doc : Type 0 where
  text : String → Doc
  modern_params modern_meta : Doc

abbrev doc_object : Doc → Option (List (String × Doc))
doc_object modern_params = some (("_meta", modern_meta) ∷ [])
doc_object modern_meta = some (
    ("io.modelcontextprotocol/protocolVersion", text "2026-07-28")
    ∷ ("io.modelcontextprotocol/clientCapabilities", text "")
    ∷ [])
doc_object (text s) = none

abbrev doc_str : Doc → Option String
doc_str (text s) = some s
doc_str _ = none

abbrev docs : Json
docs = record {
  Value = Doc;
  as_object = doc_object;
  as_str = doc_str;
  as_array = λ d. none;
  as_bool = λ d. none;
  as_number = λ d. none;
}

-- Tools that count their calls; an answer is whether it is an error.
abbrev counting : Tools docs
counting = record {
  World = List String;
  Answer = Bool;
  is_error = λ a. a;
  error_result = λ m. true;
  print = λ d. "{}";
  prompt_for_accessibility = λ w. w;
  watch_tool = λ name args w. none;
  find_visual = λ args w. (false, "ax_find_visual" ∷ w);
  workflow_tool = λ name args w. none;
  call_tool = λ name args w. (false, name ∷ w);
}

abbrev guard : SecurityGuard
guard = record {
  mode = SecurityMode.safe;
  app_policy = record { allowed = []; denied = "1Password" ∷ [] };
  rate_limiter = record { window_start = 0; count = 0; limit_per_second = 2 };
  audit = record { writer = some [] };
}

abbrev desk : Desk docs counting
desk = record {
  security = guard;
  subscriptions = some ("axterminator://clipboard" ∷ []);
  world = [];
  notified = [];
}

notifies : notify_subscribed "ax_clipboard" desk.subscriptions ≡ "axterminator://clipboard" ∷ []
unfolding notify_subscribed affected_uris
notifies = refl

dispatch_tool-Ran_example :
    let (r, d') = dispatch_tool docs counting (instant 5) "T" "ax_clipboard" (text "") desk in
    Ran docs counting (instant 5) "T" "ax_clipboard" (text "") desk r d'
    ⊎ Refused docs counting (instant 5) "ax_clipboard" (text "") desk r d'
dispatch_tool-Ran_example =
    dispatch_tool-Ran docs counting (instant 5) "T" "ax_clipboard" (text "") desk

abbrev parse : Doc → Option Bool
parse d = some true

abbrev modern_call : JsonRpcRequest docs
modern_call = record { has_id = true; method = "tools/call"; params = some modern_params }

abbrev opening : JsonRpcRequest docs
opening = record { has_id = true; method = "initialize"; params = some (text "") }

abbrev ready : JsonRpcRequest docs
ready = record { has_id = false; method = "notifications/initialized"; params = none }

routed :
    (dispatch docs parse modern_call session_new).0 ≡ Outcome.tools_call ToolCallScheduling.run_now
unfolding dispatch dispatch_modern modern_route request_class exempt_method meta_map
    meta_protocol_version_str caps_present TextMaps.lookup get session_new
routed = refl

dispatch-Admitted_example : Admitted docs parse ToolCallScheduling.run_now modern_call session_new
dispatch-Admitted_example =
    dispatch-Admitted docs parse modern_call session_new ToolCallScheduling.run_now routed

runs : (handle_all docs parse (opening ∷ ready ∷ []) session_new).phase ≡ Phase.running
unfolding handle handle_notification dispatch request_class exempt_method dispatch_legacy
    handle_initialize session_new
runs = refl

handle_all-handshake_example : handshake docs parse (opening ∷ ready ∷ []) ≡ true
handle_all-handshake_example = handle_all-handshake docs parse (opening ∷ ready ∷ []) runs

abbrev read_call : Doc → Option (String × Option Doc)
read_call d = some ("ax_clipboard", none)

handle_tools_call-Handled_example :
    Handled docs counting read_call
      (text "")
      (instant 5)
      "T"
      (some modern_params)
      ToolCallScheduling.honor_task_meta
      desk
      (handle_tools_call docs counting read_call
        (text "")
        (instant 5)
        "T"
        (some modern_params)
        ToolCallScheduling.honor_task_meta
        desk)
handle_tools_call-Handled_example =
    handle_tools_call-Handled docs counting read_call (text "") (instant 5) "T" (some modern_params)
      ToolCallScheduling.honor_task_meta desk
