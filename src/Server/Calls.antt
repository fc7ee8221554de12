-- ===== src/Server/Calls.antt =====
-- src/mcp/server_handlers.rs, `handle_tools_call` and `execute_tool_background`: a tool call that is
-- answered at once, and one that becomes a task. The store of the tasks is in Tasks.
use axterminator.Prelude.{
  ◌≡◌, refl, ◌⊎◌, String, Bool, true, false, ◌&&◌, Option, none, some, List, [], if◌then◌else◌,
  and_then, unwrap_or, arith,
}
use axterminator.Json.{Json, get}
use axterminator.Security.{SecurityGuard, Instants}
use axterminator.Server.{Tools, Desk, dispatch_tool, notify_subscribed}
use axterminator.Server.Gates.{Ran, Refused, dispatch_tool-Ran}
use axterminator.Server.Route.{ToolCallScheduling}

abbrev honors : ToolCallScheduling → Bool
honors ToolCallScheduling.honor_task_meta = true
honors ToolCallScheduling.run_now = false

module _ (j : Json) (tools : Tools j) where
  open j use {Value, as_bool}
  open tools use {World, Answer, is_error}

  pub data CallReply : Type 0 where
    invalid_params : CallReply
    task_started : String → Value → CallReply
    tool_result : Answer → CallReply

  unfoldable pub is_task_request : Value → Bool
  is_task_request params =
      unwrap_or (and_then (and_then (get j params "_meta") (λ m. get j m "task")) as_bool) false

  -- The thread of a task: the answer, the world, and the notifications written to `out`.
  unfoldable pub execute_tool_background :
      String → Value → Desk j tools → Answer × (World × List String)
  execute_tool_background name args d =
      let world = tools.prompt_for_accessibility d.world in
      elim (tools.workflow_tool name args world) [
        | some (result, world') ↦ (result, (world', notify_subscribed name d.subscriptions))
        | none ↦
            let (result, world') = tools.call_tool name args world in
            (
              result,
              (world', if is_error result then [] else notify_subscribed name d.subscriptions),
            )
      ]

  -- The closure of the thread, whose `out` is a sink.
  unfoldable pub run_thread : String → Value → Desk j tools → Answer × Desk j tools
  unfolding execute_tool_background
  run_thread name args d =
      let (result, (world, lines)) = execute_tool_background name args d in
      (result, record d { world = world })

  -- `read` is `from_value::<ToolCallParams>`, and `no_arguments` the empty object.
  module _ (read : Value → Option (String × Option Value)) (no_arguments : Value) where
    unfoldable pub handle_tools_call :
        Instants
        → String
        → Option Value
        → ToolCallScheduling
        → Desk j tools
        → CallReply × Desk j tools
    handle_tools_call now ts none scheduling d = (CallReply.invalid_params, d)
    handle_tools_call now ts (some params_val) scheduling d = elim (read params_val) [
      | none ↦ (CallReply.invalid_params, d)
      | some p ↦
          let args = unwrap_or p.1 no_arguments in
          if honors scheduling && is_task_request params_val
          then (CallReply.task_started p.0 args, d)
          else (let (r, d') = dispatch_tool j tools now ts p.0 args d in
              (CallReply.tool_result r, d'))
    ]

    -- The parameters are those of a call of the tool, and ask for a task or not.
    abbrev pub Calls : Option Value → ToolCallScheduling → String → Value → Bool → Type 0
    Calls none scheduling name args task = ⊥
    Calls (some v) scheduling name args task =
        ((arguments : Option Value) × (read v ≡ some (name, arguments))
          × (unwrap_or arguments no_arguments ≡ args))
        × ((honors scheduling && is_task_request v) ≡ task)

    -- A thread reads no guard and changes none: under every guard, at any later desk, it comes to
    -- the same answer and the same world; and it notifies nobody.
    abbrev pub Ungated : String → Value → Type 0
    Ungated name args =
        (d : Desk j tools) (g : SecurityGuard)
        → ((run_thread name args (record d { security = g })).0 ≡ (run_thread name args d).0)
          × ((run_thread name args (record d { security = g })).1
              ≡ record d { security = g; world = (run_thread name args d).1.world })

    -- What a call comes to.
    abbrev pub Handled :
        Instants
        → String
        → Option Value
        → ToolCallScheduling
        → Desk j tools
        → CallReply × Desk j tools
        → Type 0
    Handled now ts params scheduling d (CallReply.invalid_params, d') =
        ((name : String) (args : Value) (task : Bool) → ¬ Calls params scheduling name args task)
        × (d' ≡ d)
    Handled now ts params scheduling d (CallReply.task_started name args, d') =
        Calls params scheduling name args true × (d' ≡ d) × Ungated name args
    Handled now ts params scheduling d (CallReply.tool_result r, d') =
        (name : String) × (args : Value) × Calls params scheduling name args false
        × (Ran j tools now ts name args d r d' ⊎ Refused j tools now name args d r d')

    run_thread-Ungated : (name : String) (args : Value) → Ungated name args
    unfolding run_thread execute_tool_background
    run_thread-Ungated name args d g = (refl, refl)

    -- A call with unreadable parameters is an error and leaves the desk. A call that asks for a
    -- task, where that is honored, leaves the desk and starts a thread that no guard gates, in
    -- whatever mode, policy or rate. Any other call has passed every gate, or was refused by one.
    pub handle_tools_call-Handled :
        (now : Instants) (ts : String) (params : Option Value) (scheduling : ToolCallScheduling)
        (d : Desk j tools)
        → Handled now ts params scheduling d (handle_tools_call now ts params scheduling d)
    unfolding handle_tools_call
    handle_tools_call-Handled now ts none scheduling d = ((λ name args task c. c), refl)
    handle_tools_call-Handled now ts (some v) scheduling d =
        split (read v) (honors scheduling && is_task_request v) refl refl
      where
        split :
            (o : Option (String × Option Value)) (b : Bool)
            → read v ≡ o
            → (honors scheduling && is_task_request v) ≡ b
            → Handled now ts (some v) scheduling d (handle_tools_call now ts (some v) scheduling d)
        split none b e f =
            rw (e, handle_tools_call) ((λ name args task c. ground (arith, e, c.0.1)), refl)
        split (some (name, arguments)) true e f =
            rw (e, f, handle_tools_call)
              ((
                ((arguments, e, refl), f),
                refl,
                run_thread-Ungated name (unwrap_or arguments no_arguments),
              ))
        split (some (name, arguments)) false e f =
            rw (e, f, handle_tools_call)
              (
                name,
                unwrap_or arguments no_arguments,
                ((arguments, e, refl), f),
                dispatch_tool-Ran j tools now ts name (unwrap_or arguments no_arguments) d,
              )
