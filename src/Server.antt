-- ===== src/Server.antt =====
-- src/mcp/server_handlers.rs, `dispatch_tool`: the gates that a tool call passes, and what follows
-- it. The tools act on the desktop through the system's accessibility interface: what a tool does
-- is a function on a world, for any such functions. The routing of messages is in Server/Route.
pub mod Gates
pub mod Route
pub mod Calls
mod Tests
use axterminator.Prelude.{
  ℕ, String, Bool, true, false, Option, none, some, List, [], ◌∷◌, ◌++◌, Result, ok, err,
  if◌then◌else◌, str_eq, one_of, keep, not,
}
use axterminator.Json.{Json, get_str}
use axterminator.Security.{
  SecurityGuard, Instants, check_rate_limit, check_tool_allowed, check_app_allowed, is_permissive,
  audit_tool_call,
}

abbrev pub click_at_message : String
click_at_message =
    "Tool 'ax_click_at' is blocked while an app allow/deny policy is configured because coordinate clicks cannot be scoped to an allowed app"

-- The URIs that a tool may have affected.
unfoldable pub affected_uris : String → List String
affected_uris tool_name =
    if one_of tool_name ("ax_connect" ∷ "ax_disconnect" ∷ [])
    then "axterminator://apps" ∷ "axterminator://system/status" ∷ []
    else if str_eq tool_name "ax_clipboard"
    then "axterminator://clipboard" ∷ []
    else if one_of tool_name ("ax_start_capture" ∷ "ax_stop_capture" ∷ [])
    then "axterminator://capture/status" ∷ "axterminator://capture/transcription"
      ∷ "axterminator://capture/screen" ∷ []
    else []

-- The notifications of `notify_subscribed`; the set is `none` if its lock is poisoned. An empty set
-- contains no URI.
unfoldable pub notify_subscribed : String → Option (List String) → List String
notify_subscribed tool_name none = []
notify_subscribed tool_name (some subs) = keep (λ uri. one_of uri subs) (affected_uris tool_name)

module _ (j : Json) where
  open j use {Value}

  -- The tools and the prompt for the Accessibility permission. `watch_tool` and `workflow_tool` give
  -- nothing for a tool of another kind; `error_result` is `ToolCallResult::error`; `print` is
  -- the text of the arguments in the log.
  pub record Tools : Type 1 where
    pub World : Type 0
    pub Answer : Type 0
    pub is_error : Answer → Bool
    pub error_result : String → Answer
    pub print : Value → String
    pub prompt_for_accessibility : World → World
    pub watch_tool : String → Value → World → Option (Answer × World)
    pub find_visual : Value → World → Answer × World
    pub workflow_tool : String → Value → World → Option (Answer × World)
    pub call_tool : String → Value → World → Answer × World

  module _ (tools : Tools) where
    open tools use {World, Answer, is_error, error_result, print}

    -- What a call reads and changes; `notified` are the URIs notified so far.
    pub record Desk : Type 0 where
      pub security : SecurityGuard
      pub subscriptions : Option (List String)
      pub world : World
      pub notified : List String

    -- The gate of the app policy, of the argument `app`.
    unfoldable pub app_gate : String → Value → SecurityGuard → Result (Unit {0}) String
    app_gate name args g =
        if str_eq name "ax_connect"
        then elim (get_str j args "app") [ none ↦ ok tt | some app_id ↦ check_app_allowed app_id g ]
        else if str_eq name "ax_click_at"
        then (if is_permissive g.app_policy then ok tt else err click_at_message)
        else ok tt

    -- The gates after that of the rate, in order.
    unfoldable pub gates : String → Value → SecurityGuard → Result (Unit {0}) String
    gates name args g = elim (check_tool_allowed name g) [
      | err msg ↦ err msg
      | ok _ ↦ app_gate name args g
    ]

    -- The audit of a result.
    unfoldable pub audited : String → String → Value → Answer → SecurityGuard → SecurityGuard
    audited ts name args result g =
        audit_tool_call ts name (print args) (if is_error result then "error" else "ok") g

    -- A result that notifies the subscribers unless it is an error, and is audited.
    unfoldable pub notify_and_audit :
        String → String → Value → Answer × World → Desk → Answer × Desk
    notify_and_audit ts name args (result, world) d = (
      result,
      record d {
        world = world;
        notified =
            (if is_error result
              then d.notified
              else d.notified ++ notify_subscribed name d.subscriptions);
        security = audited ts name args result d.security;
      },
    )

    -- A result that is only audited.
    unfoldable pub audit_only : String → String → Value → Answer × World → Desk → Answer × Desk
    audit_only ts name args (result, world) d =
        (result, record d { world = world; security = audited ts name args result d.security })

    -- The execution of a tool that has passed the gates.
    unfoldable pub run_tool : String → String → Value → Desk → Answer × Desk
    run_tool ts name args d =
        let world = tools.prompt_for_accessibility d.world in
        elim (tools.watch_tool name args world) [
          | some r ↦ audit_only ts name args r d
          | none ↦
              if str_eq name "ax_find_visual"
              then audit_only ts name args (tools.find_visual args world) d
              else elim (tools.workflow_tool name args world) [
                | some r ↦ notify_and_audit ts name args r d
                | none ↦ notify_and_audit ts name args (tools.call_tool name args world) d
              ]
        ]

    -- `now` is what the limiter reads of the clock, `ts` the time of the audit record.
    unfoldable pub dispatch_tool : Instants → String → String → Value → Desk → Answer × Desk
    dispatch_tool now ts name args d =
        let (within, g) = check_rate_limit now d.security in
        let d' : Desk = record d { security = g } in
        elim within [
          | err msg ↦ (error_result msg, d')
          | ok _ ↦ elim (gates name args g) [
            | err msg ↦ (error_result msg, d')
            | ok _ ↦ run_tool ts name args d'
          ]
        ]
