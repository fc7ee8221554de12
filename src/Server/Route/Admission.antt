-- ===== src/Server/Route/Admission.antt =====
-- src/mcp/server.rs: which requests are routed to the tools.
use axterminator.Prelude.{
  ◌≡◌, refl, sym, ap, ◌∙◌, String, Bool, true, false, not, Option, none, some, if◌then◌else◌,
  str_eq, one_of, arith,
}
use axterminator.Json.{Json}
use axterminator.Server.Route.{
  Phase, is_running, RequestClass, ToolCallScheduling, RpcError, Outcome, Session, JsonRpcRequest,
  request_class, meta_protocol_version_str, caps_present, supported_protocol_versions,
  handle_initialize, legacy_route, dispatch_legacy, modern_route, dispatch_modern, dispatch,
  running_methods,
}

module _ (j : Json) (parse : j.Value → Option Bool) where
  open j use {Value}

  -- What lets a tool call through to the tools.
  abbrev pub Admitted : ToolCallScheduling → JsonRpcRequest j → Session → Type 0
  Admitted ToolCallScheduling.honor_task_meta msg s =
      (request_class j msg ≡ RequestClass.legacy) × (s.phase ≡ Phase.running)
  Admitted ToolCallScheduling.run_now msg s =
      (request_class j msg ≡ RequestClass.modern)
      × ((version : String) × (meta_protocol_version_str j msg ≡ some version)
          × (one_of version supported_protocol_versions ≡ true))
      × (caps_present j msg ≡ true)

  is_running-eq : (p : Phase) → is_running p ≡ true → p ≡ Phase.running
  is_running-eq Phase.running h = refl
  is_running-eq Phase.initializing h = absurd (ground arith)
  is_running-eq Phase.uninitialized h = absurd (ground arith)

  initialize_no_call :
      (params : Option Value) (s : Session) (c : ToolCallScheduling)
      → ¬ ((handle_initialize j parse params s).0 ≡ Outcome.tools_call c)
  unfolding handle_initialize
  initialize_no_call none s c h = ground (arith, h)
  initialize_no_call (some v) s c h = split (parse v) refl
    where
      split : (o : Option Bool) → parse v ≡ o → ⊥
      split none e = ground (arith, h, e)
      split (some b) e = ground (arith, h, e)

  -- The arms of the legacy dispatch, of the tests that it makes.
  abbrev pick : Bool → Bool → Bool → Bool → String → Outcome
  pick runs lists calls others method =
      if not runs
      then Outcome.error RpcError.invalid_request
      else if lists
      then Outcome.tools_list
      else if calls
      then Outcome.tools_call ToolCallScheduling.honor_task_meta
      else if others
      then Outcome.by_method method
      else Outcome.error RpcError.method_not_found

  pick_call :
      (runs lists calls others : Bool) (method : String) (c : ToolCallScheduling)
      → pick runs lists calls others method ≡ Outcome.tools_call c
      → (c ≡ ToolCallScheduling.honor_task_meta) × (runs ≡ true) × (calls ≡ true)
  pick_call runs lists calls others method c h = ground (arith, h)

  route_call :
      (method : String) (p : Phase) (c : ToolCallScheduling)
      → legacy_route j parse method p ≡ Outcome.tools_call c
      → (c ≡ ToolCallScheduling.honor_task_meta)
        × (is_running p ≡ true)
        × (str_eq method "tools/call" ≡ true)
  unfolding legacy_route
  route_call method p c h =
      pick_call (is_running p) (str_eq method "tools/list") (str_eq method "tools/call")
        (one_of method running_methods) method c h

  legacy_call :
      (msg : JsonRpcRequest j) (s : Session) (c : ToolCallScheduling)
      → (dispatch_legacy j parse msg s).0 ≡ Outcome.tools_call c
      → legacy_route j parse msg.method s.phase ≡ Outcome.tools_call c
  unfolding dispatch_legacy
  legacy_call msg s c h = ground (arith, h, initialize_no_call msg.params s c)

  legacy-honors :
      (msg : JsonRpcRequest j) (s : Session) (c : ToolCallScheduling)
      → (dispatch_legacy j parse msg s).0 ≡ Outcome.tools_call c
      → (c ≡ ToolCallScheduling.honor_task_meta)
        × (is_running s.phase ≡ true)
        × (str_eq msg.method "tools/call" ≡ true)
  legacy-honors msg s c h = route_call msg.method s.phase c (legacy_call msg s c h)

  -- The methods that a modern request passes on to the legacy dispatch are no tool calls.
  legacy_no_call :
      (msg : JsonRpcRequest j) (s : Session) (c : ToolCallScheduling)
      → str_eq msg.method "tools/call" ≡ false
      → ¬ ((dispatch_legacy j parse msg s).0 ≡ Outcome.tools_call c)
  legacy_no_call msg s c n h = let k = (legacy-honors msg s c h).2 in ground (arith, n, k)

  modern_runs :
      (msg : JsonRpcRequest j) (s : Session) (c : ToolCallScheduling)
      → (modern_route j parse msg s).0 ≡ Outcome.tools_call c
      → c ≡ ToolCallScheduling.run_now
  unfolding modern_route
  modern_runs msg s c h = ground (arith, h, legacy_no_call msg s c)

  dispatch_modern-Admitted :
      (msg : JsonRpcRequest j) (s : Session) (c : ToolCallScheduling)
      → request_class j msg ≡ RequestClass.modern
      → (dispatch_modern j parse msg s).0 ≡ Outcome.tools_call c
      → (c ≡ ToolCallScheduling.run_now) × Admitted ToolCallScheduling.run_now msg s
  unfolding dispatch_modern
  dispatch_modern-Admitted msg s c k h = split (meta_protocol_version_str j msg) refl
    where
      split :
          (o : Option String)
          → meta_protocol_version_str j msg ≡ o
          → (c ≡ ToolCallScheduling.run_now) × Admitted ToolCallScheduling.run_now msg s
      split none e = absurd (ground (arith, h, e))
      split (some v) e =
          let supported : one_of v supported_protocol_versions ≡ true = ground (arith, h, e) in
          let caps : caps_present j msg ≡ true = ground (arith, h, e) in
          let routed : (modern_route j parse msg s).0 ≡ Outcome.tools_call c =
            ground (arith, h, e) in
          (modern_runs msg s c routed, (k, (v, e, supported), caps))

  modern_route-method :
      (msg : JsonRpcRequest j) (s : Session) (c : ToolCallScheduling)
      → (modern_route j parse msg s).0 ≡ Outcome.tools_call c
      → str_eq msg.method "tools/call" ≡ true
  unfolding modern_route
  modern_route-method msg s c h = ground (arith, h, legacy_no_call msg s c)

  -- Only the method of a tool call is routed to the tools.
  pub dispatch-method :
      (msg : JsonRpcRequest j) (s : Session) (c : ToolCallScheduling)
      → (dispatch j parse msg s).0 ≡ Outcome.tools_call c
      → str_eq msg.method "tools/call" ≡ true
  unfolding dispatch dispatch_modern
  dispatch-method msg s c h = split (request_class j msg) refl
    where
      modern :
          (o : Option String)
          → request_class j msg ≡ RequestClass.modern
          → meta_protocol_version_str j msg ≡ o
          → str_eq msg.method "tools/call" ≡ true
      modern none e f = absurd (ground (arith, e, f, h))
      modern (some v) e f = modern_route-method msg s c (ground (arith, e, f, h))

      split : (k : RequestClass) → request_class j msg ≡ k → str_eq msg.method "tools/call" ≡ true
      split RequestClass.legacy e = (legacy-honors msg s c (ground (arith, e, h))).2
      split RequestClass.partial_class e = absurd (ground (arith, e, h))
      split RequestClass.modern e = modern (meta_protocol_version_str j msg) e refl

  -- A request is routed to the tools either as a legacy request of a running session, whose wish for
  -- a task is then honored, or as a modern request that names a supported version and has
  -- capabilities, in any phase, whose tool then runs at once.
  pub dispatch-Admitted :
      (msg : JsonRpcRequest j) (s : Session) (c : ToolCallScheduling)
      → (dispatch j parse msg s).0 ≡ Outcome.tools_call c
      → Admitted c msg s
  unfolding dispatch
  dispatch-Admitted msg s c h = split (request_class j msg) refl c h
    where
      split :
          (k : RequestClass)
          → request_class j msg ≡ k
          → (c : ToolCallScheduling) → (dispatch j parse msg s).0 ≡ Outcome.tools_call c
          → Admitted c msg s
      split RequestClass.legacy e ToolCallScheduling.honor_task_meta h =
          let k : dispatch j parse msg s ≡ dispatch_legacy j parse msg s = rw (e, dispatch) refl in
          (
            e,
            is_running-eq s.phase
                (legacy-honors msg s ToolCallScheduling.honor_task_meta
                  (sym (ap (λ q. q.0) k) ∙ h)).1,
          )
      split RequestClass.legacy e ToolCallScheduling.run_now h =
          let k : dispatch j parse msg s ≡ dispatch_legacy j parse msg s = rw (e, dispatch) refl in
          let c = (legacy-honors msg s ToolCallScheduling.run_now (sym (ap (λ q. q.0) k) ∙ h)).0 in
          absurd (ground (arith, c))
      split RequestClass.partial_class e c h = absurd (ground (arith, e, h))
      split RequestClass.modern e ToolCallScheduling.run_now h =
          let k : dispatch j parse msg s ≡ dispatch_modern j parse msg s = rw (e, dispatch) refl in
          (dispatch_modern-Admitted msg s ToolCallScheduling.run_now e
            (sym (ap (λ q. q.0) k) ∙ h)).1
      split RequestClass.modern e ToolCallScheduling.honor_task_meta h =
          let k : dispatch j parse msg s ≡ dispatch_modern j parse msg s = rw (e, dispatch) refl in
          let c =
            (dispatch_modern-Admitted msg s ToolCallScheduling.honor_task_meta e
              (sym (ap (λ q. q.0) k) ∙ h)).0 in
          absurd (ground (arith, c))
