-- ===== src/Security.antt =====
-- src/mcp/security.rs: the security modes, the app policy, the rate limiter, the audit log, and the
-- guard that bundles them. The calendar of the log's time stamps is in Security/Calendar. A clock
-- reading is a number of nanoseconds, and a call of the limiter takes two; environment variables
-- and the file system enter as the values that they give.
pub mod Modes
pub mod Rate
pub mod Calendar
mod Tests
use axterminator.Prelude.{
  ℕ, ◌+◌, ◌-◌, ◌/◌, ◌%◌, ◌^◌, String, Bool, true, false, not, ◌&&◌, ◌||◌, Option, none, some, List,
  [], ◌∷◌, ◌++◌, Result, ok, err, leb, ltb, if◌then◌else◌, str_eq, one_of, format, unwrap_or,
}

pub data SecurityMode : Type 0 where
  normal safe sandboxed : SecurityMode

-- `from_env`, of the variable's value (`none` if it is not set).
unfoldable pub mode_from_env : Option String → SecurityMode
mode_from_env v =
    let s : String = unwrap_or v "" in
    if str_eq s "safe"
    then SecurityMode.safe
    else if str_eq s "sandboxed"
    then SecurityMode.sandboxed
    else SecurityMode.normal

abbrev pub script_tools : List String
script_tools = "ax_run_script" ∷ "ax_shell" ∷ "ax_eval" ∷ "ax_exec" ∷ "ax_script" ∷ []

unfoldable pub is_script_tool : String → Bool
is_script_tool name = one_of name script_tools

abbrev pub read_only_tools : List String
read_only_tools =
    "ax_is_accessible" ∷ "ax_connect" ∷ "ax_list_apps" ∷ "ax_find" ∷ "ax_find_visual"
    ∷ "ax_get_tree" ∷ "ax_get_attributes" ∷ "ax_screenshot" ∷ "ax_get_value" ∷ "ax_list_windows"
    ∷ "ax_assert" ∷ "ax_wait_idle" ∷ "ax_query" ∷ "ax_analyze" ∷ "ax_app_profile" ∷ "ax_watch_start"
    ∷ "ax_watch_stop" ∷ "ax_watch_status" ∷ []

unfoldable pub is_read_only_tool : String → Bool
is_read_only_tool name = one_of name read_only_tools

-- The tools that `is_mutating_tool` excepts.
abbrev pub silent_tools : List String
silent_tools =
    "ax_is_accessible" ∷ "ax_list_apps" ∷ "ax_find" ∷ "ax_find_visual" ∷ "ax_get_tree"
    ∷ "ax_get_attributes" ∷ "ax_screenshot" ∷ "ax_get_value" ∷ "ax_list_windows" ∷ "ax_assert"
    ∷ "ax_query" ∷ "ax_analyze" ∷ "ax_app_profile" ∷ "ax_watch_status" ∷ []

unfoldable pub is_mutating_tool : String → Bool
is_mutating_tool name = not (one_of name silent_tools)

unfoldable pub is_tool_allowed : SecurityMode → String → Bool
is_tool_allowed SecurityMode.normal name = true
is_tool_allowed SecurityMode.safe name = not (is_script_tool name)
is_tool_allowed SecurityMode.sandboxed name = is_read_only_tool name

-- `none` is the panic of `unreachable!`.
unfoldable pub blocked_message : SecurityMode → String → Option String
blocked_message SecurityMode.normal name = none
blocked_message SecurityMode.safe name =
    some (format ("Tool '" ∷ name ∷ "' is blocked in safe mode (scripting disabled)" ∷ []))
blocked_message SecurityMode.sandboxed name =
    some (format ("Tool '" ∷ name ∷ "' is blocked in sandboxed mode (read-only)" ∷ []))

-- The two sets, with no text twice.
pub record AppPolicy : Type 0 where
  pub allowed : List String
  pub denied : List String

abbrev pub is_empty : List String → Bool
is_empty [] = true
is_empty (s ∷ ss) = false

unfoldable pub permissive : AppPolicy
permissive = record { allowed = []; denied = [] }

unfoldable pub is_permissive : AppPolicy → Bool
is_permissive p = is_empty p.allowed && is_empty p.denied

unfoldable pub is_app_allowed : AppPolicy → String → Bool
is_app_allowed p app_id =
    if one_of app_id p.denied then false else is_empty p.allowed || one_of app_id p.allowed

pub record RateLimiter : Type 0 where
  pub window_start : ℕ
  pub count : ℕ
  pub limit_per_second : ℕ

-- `RateLimiter::new`, of the variable's value parsed as `u32` (`none` if not set or no number).
unfoldable pub limiter_new : Option ℕ → ℕ → RateLimiter
limiter_new limit now = record {
  window_start = now;
  count = 0;
  limit_per_second = unwrap_or limit 50;
}

-- The readings of the clock by one call: that of `elapsed`, and that of `Instant::now`, which is
-- taken only if the window restarts.
pub record Instants : Type 0 where
  pub elapsed_at : ℕ
  pub restart_at : ℕ

-- Two readings of the same time.
abbrev pub instant : ℕ → Instants
instant t = record { elapsed_at = t; restart_at = t }

-- `check`; `elapsed` is 0 for a reading before the start, and `count` is a `u32`.
unfoldable pub check : Instants → RateLimiter → Bool × RateLimiter
check now r =
    let r1 : RateLimiter =
      if leb 1 ((now.elapsed_at - r.window_start) / 10 ^ 9)
      then record r { window_start = now.restart_at; count = 0 }
      else r in
    let r2 : RateLimiter = record r1 { count = (r1.count + 1) % 2 ^ 32 } in
    (leb r2.count r2.limit_per_second, r2)

-- The lines handed to the log's writer; `none` if the file could not be opened.
pub record AuditLog : Type 0 where
  pub writer : Option (List String)

-- `record`, of the time and the arguments as they are printed.
unfoldable pub log_record : String → String → String → String → AuditLog → AuditLog
log_record ts tool args result log = elim log.writer [
  | none ↦ log
  | some lines ↦ record {
    writer = some (
        lines
        ++ (format (
              "{\"ts\":\"" ∷ ts ∷ "\",\"tool\":\"" ∷ tool ∷ "\",\"args\":" ∷ args ∷ ",\"result\":\""
              ∷ result ∷ "\"}\n" ∷ [])
            ∷ []));
  }
]

pub record SecurityGuard : Type 0 where
  pub mode : SecurityMode
  pub app_policy : AppPolicy
  pub rate_limiter : RateLimiter
  pub audit : AuditLog

unfoldable pub check_rate_limit :
    Instants → SecurityGuard → Result (Unit {0}) String × SecurityGuard
check_rate_limit now g =
    let (within, limiter) = check now g.rate_limiter in
    (
      if within then ok tt else err "Rate limit exceeded — too many tool calls per second",
      record g { rate_limiter = limiter },
    )

-- A panic of `blocked_message` would show as the empty message.
unfoldable pub check_tool_allowed : String → SecurityGuard → Result (Unit {0}) String
check_tool_allowed name g =
    if is_tool_allowed g.mode name then ok tt else err (unwrap_or (blocked_message g.mode name) "")

unfoldable pub check_app_allowed : String → SecurityGuard → Result (Unit {0}) String
check_app_allowed app_id g =
    if is_app_allowed g.app_policy app_id
    then ok tt
    else err (format ("App '" ∷ app_id ∷ "' is blocked by security policy" ∷ []))

unfoldable pub audit_tool_call : String → String → String → String → SecurityGuard → SecurityGuard
audit_tool_call ts tool args result g =
    if not (is_mutating_tool tool)
    then g
    else record g { audit = log_record ts tool args result g.audit }
