-- ===== src/Server/Gates.antt =====
-- src/mcp/server_handlers.rs, `dispatch_tool`: which calls run their tool, and what they leave.
use axterminator.Prelude.{
  ◌≡◌, refl, sym, ap, subst, ◌∙◌, ◌⊎◌, inl, inr, String, Bool, true, false, Option, none, some,
  ◌++◌, Result, ok, err, is_ok, if◌then◌else◌, str_eq, str_eq_iff, arith,
}
use axterminator.Json.{Json, get_str}
use axterminator.Security.{
  SecurityGuard, AppPolicy, Instants, check, check_rate_limit, check_tool_allowed,
  check_app_allowed, is_tool_allowed, is_app_allowed, is_permissive,
}
use axterminator.Security.Modes.{is_ok-check_tool_allowed}
use axterminator.Server.{
  Tools, Desk, notify_subscribed, app_gate, gates, audited, notify_and_audit, audit_only, run_tool,
  dispatch_tool,
}

module _ (j : Json) (tools : Tools j) where
  open j use {Value}
  open tools use {Answer, World, is_error, error_result}

  -- What the app policy asks of a call.
  pub record PolicyAllows (name : String) (args : Value) (p : AppPolicy) : Type 0 where
    pub connects :
        (app_id : String)
        → name ≡ "ax_connect"
        → get_str j args "app" ≡ some app_id
        → is_app_allowed p app_id ≡ true
    pub clicks : name ≡ "ax_click_at" → is_permissive p ≡ true

  app_gate-ok :
      (name : String) (args : Value) (g : SecurityGuard)
      → is_ok (app_gate j tools name args g) ≡ true
      → PolicyAllows name args g.app_policy
  unfolding app_gate check_app_allowed
  app_gate-ok name args g h = record {
    connects = λ app_id n a. ground (arith, h, n, a, str_eq_iff name "ax_connect");
    clicks = λ n.
        let other : str_eq name "ax_connect" ≡ false = ap (λ s. str_eq s "ax_connect") n in
        ground (arith, h, n, other, str_eq_iff name "ax_click_at");
  }

  app_gate-err :
      (name : String) (args : Value) (g : SecurityGuard)
      → is_ok (app_gate j tools name args g) ≡ false
      → ¬ PolicyAllows name args g.app_policy
  unfolding app_gate check_app_allowed
  app_gate-err name args g h a = split (get_str j args "app") refl
    where
      split : (o : Option String) → get_str j args "app" ≡ o → ⊥
      split none e =
          ground
            (arith, h, e, a.clicks, str_eq_iff name "ax_connect", str_eq_iff name "ax_click_at")
      split (some app_id) e = ground (
        arith,
        h,
        e,
        a.clicks,
        a.connects app_id,
        str_eq_iff name "ax_connect",
        str_eq_iff name "ax_click_at",
      )

  -- The guard once the rate limiter has counted the call.
  abbrev pub counted : Instants → SecurityGuard → SecurityGuard
  counted now g = record g { rate_limiter = (check now g.rate_limiter).1 }

  -- A call that ran its tool.
  pub record Ran (now : Instants) (ts name : String) (args : Value) (d : Desk j tools) (r : Answer)
      (d' : Desk j tools) : Type 0 where
    pub within : (check now d.security.rate_limiter).0 ≡ true
    pub allowed : is_tool_allowed d.security.mode name ≡ true
    pub policy : PolicyAllows name args d.security.app_policy
    pub answer :
        r ≡ (run_tool j tools ts name args (record d { security = counted now d.security })).0
    pub desk :
        d' ≡ (run_tool j tools ts name args (record d { security = counted now d.security })).1
    pub security : d'.security ≡ audited j tools ts name args r (counted now d.security)
    pub subscriptions : d'.subscriptions ≡ d.subscriptions
    pub notified :
        (d'.notified ≡ d.notified)
        ⊎ ((is_error r ≡ false)
            × (d'.notified ≡ d.notified ++ notify_subscribed name d.subscriptions))

  -- A call that did not.
  pub record Refused (now : Instants) (name : String) (args : Value) (d : Desk j tools) (r : Answer)
      (d' : Desk j tools) : Type 0 where
    pub reason :
        ((check now d.security.rate_limiter).0 ≡ false)
        ⊎ ((is_tool_allowed d.security.mode name ≡ false)
            ⊎ (¬ PolicyAllows name args d.security.app_policy))
    pub answer : (msg : String) × (r ≡ error_result msg)
    pub desk : d' ≡ record d { security = counted now d.security }

  -- How a run leaves the desk that it starts from.
  record Left (ts name : String) (args : Value) (d : Desk j tools) (r : Answer) (d' : Desk j tools)
      : Type 0 where
    security : d'.security ≡ audited j tools ts name args r d.security
    subscriptions : d'.subscriptions ≡ d.subscriptions
    notified :
        (d'.notified ≡ d.notified)
        ⊎ ((is_error r ≡ false)
            × (d'.notified ≡ d.notified ++ notify_subscribed name d.subscriptions))

  audit_only-Left :
      (ts name : String) (args : Value) (r : Answer × World) (d : Desk j tools)
      → let (a, d') = audit_only j tools ts name args r d in Left ts name args d a d'
  unfolding audit_only
  audit_only-Left ts name args (r, w) d = record {
    security = refl;
    subscriptions = refl;
    notified = inl refl;
  }

  notify_and_audit-Left :
      (ts name : String) (args : Value) (r : Answer × World) (d : Desk j tools)
      → let (a, d') = notify_and_audit j tools ts name args r d in Left ts name args d a d'
  unfolding notify_and_audit
  notify_and_audit-Left ts name args (r, w) d = record {
    security = refl;
    subscriptions = refl;
    notified = notes (is_error r) refl;
  }
    where
      notes :
          (b : Bool)
          → is_error r ≡ b
          → let n =
              if is_error r
              then d.notified
              else d.notified ++ notify_subscribed name d.subscriptions in
            (n ≡ d.notified)
            ⊎ ((is_error r ≡ false) × (n ≡ d.notified ++ notify_subscribed name d.subscriptions))
      notes true h = inl (ground (arith, h))
      notes false h = inr (h, ground (arith, h))

  run_tool-Left :
      (ts name : String) (args : Value) (d : Desk j tools)
      → let (a, d') = run_tool j tools ts name args d in Left ts name args d a d'
  unfolding run_tool
  run_tool-Left ts name args d =
      split (tools.watch_tool name args (tools.prompt_for_accessibility d.world))
        (str_eq name "ax_find_visual")
        (tools.workflow_tool name args (tools.prompt_for_accessibility d.world)) refl refl refl
    where
      split :
          (o : Option (Answer × World)) (b : Bool) (o' : Option (Answer × World))
          → tools.watch_tool name args (tools.prompt_for_accessibility d.world) ≡ o
          → str_eq name "ax_find_visual" ≡ b
          → tools.workflow_tool name args (tools.prompt_for_accessibility d.world) ≡ o'
          → let (a, d') = run_tool j tools ts name args d in Left ts name args d a d'
      split (some r) b o' h k l = rw (h, run_tool) (audit_only-Left ts name args r d)
      split none true o' h k l = rw (h, k, run_tool) (audit_only-Left ts name args _ d)
      split none false (some r) h k l =
          rw (h, k, l, run_tool) (notify_and_audit-Left ts name args r d)
      split none false none h k l = rw (h, k, l, run_tool) (notify_and_audit-Left ts name args _ d)

  gates-ok :
      (name : String) (args : Value) (g : SecurityGuard)
      → is_ok (gates j tools name args g) ≡ true
      → (is_tool_allowed g.mode name ≡ true) × PolicyAllows name args g.app_policy
  unfolding gates
  gates-ok name args g h = split (check_tool_allowed name g) refl
    where
      split :
          (o : Result (Unit {0}) String)
          → check_tool_allowed name g ≡ o
          → (is_tool_allowed g.mode name ≡ true) × PolicyAllows name args g.app_policy
      split (ok u) e = (
        sym (is_ok-check_tool_allowed name g) ∙ ap is_ok e,
        app_gate-ok name args g (ground (arith, e, h)),
      )
      split (err m) e = absurd (ground (arith, e, h))

  gates-err :
      (name : String) (args : Value) (g : SecurityGuard)
      → is_ok (gates j tools name args g) ≡ false
      → (is_tool_allowed g.mode name ≡ false) ⊎ (¬ PolicyAllows name args g.app_policy)
  unfolding gates
  gates-err name args g h = split (check_tool_allowed name g) refl
    where
      split :
          (o : Result (Unit {0}) String)
          → check_tool_allowed name g ≡ o
          → (is_tool_allowed g.mode name ≡ false) ⊎ (¬ PolicyAllows name args g.app_policy)
      split (ok u) e = inr (app_gate-err name args g (ground (arith, e, h)))
      split (err m) e = inl (sym (is_ok-check_tool_allowed name g) ∙ ap is_ok e)

  -- A call either runs its tool or is refused. It runs only if the limiter, which counts it, is within
  -- the rate, the mode allows the tool, and the app policy allows the app that it connects to, and
  -- is permissive if it clicks at coordinates; the answer and the desk are then those of the run,
  -- the result is audited, and the subscribers are notified at most, and only of a result that is no
  -- error. It is refused only if one of these fails, with an error, and leaves everything but the
  -- limiter as it was.
  pub dispatch_tool-Ran :
      (now : Instants) (ts name : String) (args : Value) (d : Desk j tools)
      → let (r, d') = dispatch_tool j tools now ts name args d in
        Ran now ts name args d r d' ⊎ Refused now name args d r d'
  unfolding dispatch_tool check_rate_limit
  dispatch_tool-Ran now ts name args d =
      split (check now d.security.rate_limiter).0 (gates j tools name args (counted now d.security))
        refl refl
    where
      along :
          (q : Answer × Desk j tools)
          → dispatch_tool j tools now ts name args d ≡ q
          → Ran now ts name args d q.0 q.1 ⊎ Refused now name args d q.0 q.1
          → let (r, d') = dispatch_tool j tools now ts name args d in
            Ran now ts name args d r d' ⊎ Refused now name args d r d'
      along q e x =
          subst (λ q. Ran now ts name args d q.0 q.1 ⊎ Refused now name args d q.0 q.1) (sym e) x

      split :
          (b : Bool) (o : Result (Unit {0}) String)
          → (check now d.security.rate_limiter).0 ≡ b
          → gates j tools name args (counted now d.security) ≡ o
          → let (r, d') = dispatch_tool j tools now ts name args d in
            Ran now ts name args d r d' ⊎ Refused now name args d r d'
      split false o h k =
          along
            (
              error_result "Rate limit exceeded — too many tool calls per second",
              record d { security = counted now d.security },
            )
            (rw (h, dispatch_tool) refl)
            (inr (record { reason = inl h; answer = (_, refl); desk = refl }))
      split true (err m) h k =
          along (error_result m, record d { security = counted now d.security })
            (rw (h, k, dispatch_tool) refl)
            (inr (record {
              reason = inr (gates-err name args (counted now d.security) (ap is_ok k));
              answer = (m, refl);
              desk = refl;
            }))
      split true (ok u) h k =
          let (allowed, policy) = gates-ok name args (counted now d.security) (ap is_ok k) in
          let left = run_tool-Left ts name args (record d { security = counted now d.security }) in
          along (run_tool j tools ts name args (record d { security = counted now d.security }))
            (rw (h, k, dispatch_tool) refl)
            (inl (record {
              within = h;
              allowed = allowed;
              policy = policy;
              answer = refl;
              desk = refl;
              security = left.security;
              subscriptions = left.subscriptions;
              notified = left.notified;
            }))
