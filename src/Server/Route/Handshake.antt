-- ===== src/Server/Route/Handshake.antt =====
-- src/mcp/server.rs: what must have come before a session is running.
use axterminator.Prelude.{
  ◌≡◌, refl, sym, ap, subst, ◌⊎◌, inl, inr, String, Bool, true, false, not, ◌||◌, ◌&&◌, Option,
  none, some, List, [], ◌∷◌, if◌then◌else◌, str_eq, one_of, arith, and_then,
}
use axterminator.Json.{Json}
use axterminator.Server.Route.{
  Phase, RequestClass, ToolCallScheduling, RpcError, Outcome, Session, session_new, JsonRpcRequest,
  request_class, meta_protocol_version_str, caps_present, supported_protocol_versions,
  handle_initialize, dispatch_legacy, modern_route, dispatch_modern, dispatch, handle_notification,
  handle, is_some,
}

module _ (j : Json) (parse : j.Value → Option Bool) where
  open j use {Value}

  -- An `initialize` request whose parameters are read, and the notification that ends the handshake.
  abbrev pub opens : JsonRpcRequest j → Bool
  opens msg = msg.has_id && str_eq msg.method "initialize" && is_some (and_then msg.params parse)

  abbrev pub confirms : JsonRpcRequest j → Bool
  confirms msg = not msg.has_id && str_eq msg.method "notifications/initialized"

  abbrev pub any_confirms : List (JsonRpcRequest j) → Bool
  any_confirms [] = false
  any_confirms (m ∷ ms) = confirms m || any_confirms ms

  -- An opening request with a confirmation after it.
  abbrev pub handshake : List (JsonRpcRequest j) → Bool
  handshake [] = false
  handshake (m ∷ ms) = (opens m && any_confirms ms) || handshake ms

  abbrev pub handle_all : List (JsonRpcRequest j) → Session → Session
  handle_all [] s = s
  handle_all (m ∷ ms) s = handle_all ms (handle j parse m s).1

  -- How one message may change the phase.
  abbrev Moves : JsonRpcRequest j → Phase → Phase → Type 0
  Moves m p q =
      (q ≡ p)
      ⊎ (((q ≡ Phase.initializing) × (opens m ≡ true))
          ⊎ ((p ≡ Phase.initializing) × (q ≡ Phase.running) × (confirms m ≡ true)))

  initialize-Moves :
      (m : JsonRpcRequest j) (s : Session)
      → m.has_id ≡ true
      → str_eq m.method "initialize" ≡ true
      → Moves m s.phase (handle_initialize j parse m.params s).1.phase
  unfolding handle_initialize
  initialize-Moves m s h n = split m.params refl
    where
      parsed :
          (v : Value) (o : Option Bool)
          → m.params ≡ some v
          → parse v ≡ o
          → Moves m s.phase (handle_initialize j parse m.params s).1.phase
      parsed v none e f = inl (rw (e, f, handle_initialize) refl)
      parsed v (some b) e f = inr (inl (rw (e, f, handle_initialize) refl, rw (h, n, e, f) refl))

      split :
          (o : Option Value)
          → m.params ≡ o
          → Moves m s.phase (handle_initialize j parse m.params s).1.phase
      split none e = inl (rw (e, handle_initialize) refl)
      split (some v) e = parsed v (parse v) e refl

  legacy-Moves :
      (m : JsonRpcRequest j) (s : Session)
      → m.has_id ≡ true
      → Moves m s.phase (dispatch_legacy j parse m s).1.phase
  unfolding dispatch_legacy
  legacy-Moves m s h = split (str_eq m.method "initialize") (str_eq m.method "ping") refl refl
    where
      split :
          (a b : Bool)
          → str_eq m.method "initialize" ≡ a
          → str_eq m.method "ping" ≡ b
          → Moves m s.phase (dispatch_legacy j parse m s).1.phase
      split true b e f =
          subst (Moves m s.phase) (ap phase_of (sym (init e))) (initialize-Moves m s h e)
        where
          phase_of : Outcome × Session → Phase
          phase_of q = q.1.phase

          init :
              str_eq m.method "initialize" ≡ true
              → dispatch_legacy j parse m s ≡ handle_initialize j parse m.params s
          init e = rw (e, dispatch_legacy) refl
      split false true e f = inl (ground (arith, e, f))
      split false false e f = inl (ground (arith, e, f))

  -- A dispatch leaves the session or does what the legacy dispatch does.
  abbrev IsLegacy : JsonRpcRequest j → Session → Outcome × Session → Type 0
  IsLegacy m s q = (q.1 ≡ s) ⊎ (q ≡ dispatch_legacy j parse m s)

  modern_route-IsLegacy :
      (m : JsonRpcRequest j) (s : Session) → IsLegacy m s (modern_route j parse m s)
  unfolding modern_route
  modern_route-IsLegacy m s =
      route (str_eq m.method "tools/list") (str_eq m.method "tools/call")
        (str_eq m.method "server/discover") _
    where
      route :
          (a b c d : Bool)
          → IsLegacy m s (
              if a
              then (Outcome.tools_list, s)
              else if b
              then (Outcome.tools_call ToolCallScheduling.run_now, s)
              else if c
              then (Outcome.discovered, s)
              else if d
              then dispatch_legacy j parse m s
              else (Outcome.error RpcError.method_not_found, s))
      route true b c d = inl refl
      route false true c d = inl refl
      route false false true d = inl refl
      route false false false true = inr refl
      route false false false false = inl refl

  dispatch_modern-IsLegacy :
      (m : JsonRpcRequest j) (s : Session) → IsLegacy m s (dispatch_modern j parse m s)
  unfolding dispatch_modern
  dispatch_modern-IsLegacy m s = split (meta_protocol_version_str j m) refl
    where
      version :
          (a b : Bool)
          → IsLegacy m s (
              if not a
              then (Outcome.error RpcError.unsupported_protocol_version, s)
              else if not b
              then (Outcome.error RpcError.invalid_params, s)
              else modern_route j parse m s)
      version false b = inl refl
      version true false = inl refl
      version true true = modern_route-IsLegacy m s

      split :
          (o : Option String)
          → meta_protocol_version_str j m ≡ o
          → IsLegacy m s (dispatch_modern j parse m s)
      split none e = rw (e, dispatch_modern) (inl refl)
      split (some v) e =
          rw (e, dispatch_modern)
            (version (one_of v supported_protocol_versions) (caps_present j m))

  dispatch-IsLegacy : (m : JsonRpcRequest j) (s : Session) → IsLegacy m s (dispatch j parse m s)
  unfolding dispatch
  dispatch-IsLegacy m s = split (request_class j m) refl
    where
      split : (k : RequestClass) → request_class j m ≡ k → IsLegacy m s (dispatch j parse m s)
      split RequestClass.legacy e = rw (e, dispatch) (inr refl)
      split RequestClass.partial_class e = rw (e, dispatch) (inl refl)
      split RequestClass.modern e = rw (e, dispatch) (dispatch_modern-IsLegacy m s)

  dispatch-Moves :
      (m : JsonRpcRequest j) (s : Session)
      → m.has_id ≡ true
      → Moves m s.phase (dispatch j parse m s).1.phase
  dispatch-Moves m s h = elim (dispatch-IsLegacy m s) [
    | inl e ↦ inl (ap (λ (t : Session). t.phase) e)
    | inr e ↦
        subst (λ (q : Outcome × Session). Moves m s.phase q.1.phase) (sym e) (legacy-Moves m s h)
  ]

  notification-Moves :
      (m : JsonRpcRequest j) (s : Session)
      → m.has_id ≡ false
      → Moves m s.phase (handle_notification j parse m s).phase
  unfolding handle_notification
  notification-Moves m s h = split s.phase (str_eq m.method "notifications/initialized") refl refl
    where
      split :
          (p : Phase) (b : Bool)
          → s.phase ≡ p
          → str_eq m.method "notifications/initialized" ≡ b
          → Moves m s.phase (handle_notification j parse m s).phase
      split p false e n = inl (rw (n, handle_notification) refl)
      split Phase.uninitialized true e n = inl (ground (arith, e, n))
      split Phase.running true e n = inl (ground (arith, e, n))
      split Phase.initializing true e n = inr (inr (e, ground (arith, e, n), ground (arith, h, n)))

  handle-Moves : (m : JsonRpcRequest j) (s : Session) → Moves m s.phase (handle j parse m s).1.phase
  unfolding handle
  handle-Moves m s = split m.has_id refl
    where
      split : (b : Bool) → m.has_id ≡ b → Moves m s.phase (handle j parse m s).1.phase
      split true h =
          subst (λ (q : Option Outcome × Session). Moves m s.phase q.1.phase) (sym (request h))
            (dispatch-Moves m s h)
        where
          request :
              m.has_id ≡ true
              → handle j parse m s ≡ (some (dispatch j parse m s).0, (dispatch j parse m s).1)
          request h = rw (h, handle) refl
      split false h =
          subst (λ (q : Option Outcome × Session). Moves m s.phase q.1.phase) (sym (notice h))
            (notification-Moves m s h)
        where
          notice : m.has_id ≡ false → handle j parse m s ≡ (none, handle_notification j parse m s)
          notice h = rw (h, handle) refl

  -- What is left to come for a session to be running after the messages.
  abbrev Needs : Phase → List (JsonRpcRequest j) → Type 0
  Needs Phase.running ms = Unit
  Needs Phase.initializing ms = (any_confirms ms ≡ true) ⊎ (handshake ms ≡ true)
  Needs Phase.uninitialized ms = handshake ms ≡ true

  Needs-step :
      (m : JsonRpcRequest j) (ms : List (JsonRpcRequest j)) (p q : Phase)
      → Moves m p q
      → Needs q ms
      → Needs p (m ∷ ms)
  Needs-step m ms Phase.running q v n = tt
  Needs-step m ms Phase.initializing Phase.running v n = ground (arith, v)
  Needs-step m ms Phase.initializing Phase.initializing v n = ground (arith, v, n)
  Needs-step m ms Phase.initializing Phase.uninitialized v n = ground (arith, v, n)
  Needs-step m ms Phase.uninitialized Phase.running v n = ground (arith, v)
  Needs-step m ms Phase.uninitialized Phase.initializing v n = ground (arith, v, n)
  Needs-step m ms Phase.uninitialized Phase.uninitialized v n = ground (arith, v, n)

  handle_all-Needs :
      (ms : List (JsonRpcRequest j)) (s : Session)
      → (handle_all ms s).phase ≡ Phase.running
      → Needs s.phase ms
  handle_all-Needs [] s h = subst (λ p. Needs p []) (sym h) tt
  handle_all-Needs (m ∷ ms) s h =
      Needs-step m ms s.phase _ (handle-Moves m s) (handle_all-Needs ms (handle j parse m s).1 h)

  -- A new session is running after some messages only if there was among them an `initialize` request
  -- with parameters that are read, and after it an `initialized` notification.
  pub handle_all-handshake :
      (ms : List (JsonRpcRequest j))
      → (handle_all ms session_new).phase ≡ Phase.running
      → handshake ms ≡ true
  unfolding session_new
  handle_all-handshake ms h = handle_all-Needs ms session_new h
