-- ===== src/Security/Modes.antt =====
-- src/mcp/security.rs: how the security modes, the tool lists and the policy relate.
use axterminator.Prelude.{
  ◌≡◌, refl, String, Bool, true, false, not, List, [], ◌∷◌, Result, ok, err, arith, if◌then◌else◌,
  str_eq_iff, one_of, ◌⊎◌, ◌↔◌, is_ok, format,
}
use axterminator.Security.{
  SecurityMode, SecurityGuard, AppPolicy, is_tool_allowed, is_script_tool, is_read_only_tool,
  is_mutating_tool, check_tool_allowed, is_app_allowed, script_tools, read_only_tools, silent_tools,
}

-- The text is in the list.
abbrev pub IsOneOf : String → List String → Type 0
IsOneOf name [] = ⊥
IsOneOf name (s ∷ ss) = (name ≡ s) ⊎ IsOneOf name ss

-- A text of the first list is found by the test that the second list gives.
abbrev all_in : List String → (String → Bool) → Bool
all_in [] p = true
all_in (s ∷ ss) p = if p s then all_in ss p else false

one_of-all_in :
    (ss : List String) (p : String → Bool) (name : String)
    → all_in ss p ≡ true
    → one_of name ss ≡ true
    → p name ≡ true
one_of-all_in [] p name h k = absurd (ground arith)
one_of-all_in (s ∷ ss) p name h k = ground (arith, one_of-all_in ss p name, str_eq_iff name s)

script-read_only : (name : String) → is_script_tool name ≡ true → is_read_only_tool name ≡ false
unfolding is_script_tool is_read_only_tool
script-read_only name h =
    let k = one_of-all_in script_tools (λ s. not (one_of s read_only_tools)) name refl h in
    not_true (one_of name read_only_tools) k
  where
    not_true : (b : Bool) → not b ≡ true → b ≡ false
    not_true true k = ground arith
    not_true false k = refl

silent-read_only : (name : String) → is_mutating_tool name ≡ false → is_read_only_tool name ≡ true
unfolding is_mutating_tool is_read_only_tool
silent-read_only name h =
    one_of-all_in silent_tools (λ s. one_of s read_only_tools) name refl
      (not_false (one_of name silent_tools) h)
  where
    not_false : (b : Bool) → not b ≡ false → b ≡ true
    not_false true k = refl
    not_false false k = ground arith

-- The modes are nested: a tool allowed in sandboxed mode is allowed in safe mode, and one allowed in
-- safe mode is allowed in normal mode; no script tool is allowed in safe or in sandboxed mode; and
-- a tool that is not audited is allowed in every mode.
pub modes_nested :
    (name : String)
    → (is_tool_allowed SecurityMode.sandboxed name ≡ true
        → is_tool_allowed SecurityMode.safe name ≡ true)
      × (is_tool_allowed SecurityMode.safe name ≡ true
          → is_tool_allowed SecurityMode.normal name ≡ true)
      × (is_script_tool name ≡ true
          → (is_tool_allowed SecurityMode.safe name ≡ false)
            × (is_tool_allowed SecurityMode.sandboxed name ≡ false))
      × ((m : SecurityMode) → is_mutating_tool name ≡ false → is_tool_allowed m name ≡ true)
unfolding is_tool_allowed
modes_nested name = (
  λ h. ground (arith, script-read_only name),
  λ h. refl,
  λ h. ground (arith, script-read_only name),
  every,
)
  where
    every : (m : SecurityMode) → is_mutating_tool name ≡ false → is_tool_allowed m name ≡ true
    every SecurityMode.normal h = refl
    every SecurityMode.safe h = ground (arith, script-read_only name, silent-read_only name)
    every SecurityMode.sandboxed h = silent-read_only name h

-- What the gate of a mode answers for a tool: in normal mode it lets every tool through; in safe
-- mode it refuses the five tools that run scripts, and in sandboxed mode all but eighteen, each
-- with its text.
abbrev pub Gate : SecurityMode → String → Result (Unit {0}) String → Type 0
Gate SecurityMode.normal name r = r ≡ ok tt
Gate SecurityMode.safe name r =
    let scripting : Type 0 =
      IsOneOf name ("ax_run_script" ∷ "ax_shell" ∷ "ax_eval" ∷ "ax_exec" ∷ "ax_script" ∷ []) in
    ((r ≡ ok tt) × ¬ scripting)
    ⊎ (scripting
        × (r
            ≡ err
                (format ("Tool '" ∷ name ∷ "' is blocked in safe mode (scripting disabled)" ∷ []))))
Gate SecurityMode.sandboxed name r =
    let reading : Type 0 = IsOneOf name (
      "ax_is_accessible" ∷ "ax_connect" ∷ "ax_list_apps" ∷ "ax_find" ∷ "ax_find_visual"
      ∷ "ax_get_tree" ∷ "ax_get_attributes" ∷ "ax_screenshot" ∷ "ax_get_value" ∷ "ax_list_windows"
      ∷ "ax_assert" ∷ "ax_wait_idle" ∷ "ax_query" ∷ "ax_analyze" ∷ "ax_app_profile"
      ∷ "ax_watch_start" ∷ "ax_watch_stop" ∷ "ax_watch_status" ∷ []) in
    ((r ≡ ok tt) × reading)
    ⊎ ((¬ reading)
        × (r ≡ err (format ("Tool '" ∷ name ∷ "' is blocked in sandboxed mode (read-only)" ∷ []))))

pub is_ok-check_tool_allowed :
    (name : String) (g : SecurityGuard)
    → is_ok (check_tool_allowed name g) ≡ is_tool_allowed g.mode name
unfolding check_tool_allowed
is_ok-check_tool_allowed name g = ground arith

-- The deny list wins, and the allow list matters only if it is not empty.
pub is_app_allowed_lem :
    (app_id : String) (p : AppPolicy)
    → (is_app_allowed p app_id ≡ true)
      ↔ ((one_of app_id p.denied ≡ false) × ((p.allowed ≡ []) ⊎ (one_of app_id p.allowed ≡ true)))
unfolding is_app_allowed
is_app_allowed_lem app_id p = ground arith
