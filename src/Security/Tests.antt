-- ===== src/Security/Tests.antt =====
-- src/mcp/security.rs at concrete inputs.
use axterminator.Prelude.{
  ◌+◌, ◌-◌, ◌≡◌, ◌≤◌, refl, true, false, some, [], ◌∷◌, ◌++◌, min, replicate, arith,
}
use axterminator.Security.{
  SecurityMode, SecurityGuard, RateLimiter, instant, is_tool_allowed, is_script_tool,
  is_mutating_tool, log_record, audit_tool_call,
}
use axterminator.Security.Modes.{modes_nested}
use axterminator.Security.Rate.{calls, calls_window, calls_burst}
use axterminator.Security.Calendar.{
  days_to_ymd, march_date, days_to_ymd_lem, month_length, day_number,
}

abbrev guard : SecurityGuard
guard = record {
  mode = SecurityMode.safe;
  app_policy = record { allowed = []; denied = "1Password" ∷ [] };
  rate_limiter = record { window_start = 0; count = 0; limit_per_second = 2 };
  audit = record { writer = some [] };
}

audit_line : audit_tool_call "T" "ax_click" "{}" "ok" guard ≡ record guard {
  audit = record {
    writer = some ("{\"ts\":\"T\",\"tool\":\"ax_click\",\"args\":{},\"result\":\"ok\"}\n" ∷ []);
  };
}
unfolding audit_tool_call is_mutating_tool log_record
audit_line = refl

leap_day : days_to_ymd 11016 ≡ record { year = 2000; month = 2; day = 29 }
unfolding days_to_ymd march_date
leap_day = refl

modes_nested_example :
    (is_tool_allowed SecurityMode.sandboxed "ax_find" ≡ true
      → is_tool_allowed SecurityMode.safe "ax_find" ≡ true)
    × (is_tool_allowed SecurityMode.safe "ax_find" ≡ true
        → is_tool_allowed SecurityMode.normal "ax_find" ≡ true)
    × (is_script_tool "ax_find" ≡ true
        → (is_tool_allowed SecurityMode.safe "ax_find" ≡ false)
          × (is_tool_allowed SecurityMode.sandboxed "ax_find" ≡ false))
    × ((m : SecurityMode) → is_mutating_tool "ax_find" ≡ false → is_tool_allowed m "ax_find" ≡ true)
modes_nested_example = modes_nested "ax_find"

calls_window_example :
    let (n, r) = calls (instant 5 ∷ instant 6 ∷ instant 7 ∷ []) guard.rate_limiter in
    (n ≡ min 3 (2 - 0)) × (r.count ≡ 0 + 3) × (r.window_start ≡ 0) × (r.limit_per_second ≡ 2)
calls_window_example =
    calls_window (instant 5 ∷ instant 6 ∷ instant 7 ∷ []) guard.rate_limiter (omega arith)
      (omega arith)

calls_burst_example :
    let r : RateLimiter = record { window_start = 7; count = 0; limit_per_second = 2 } in
    (calls (replicate 2 (instant (7 + 999999999)) ++ replicate 2 (instant (7 + 1000000000))) r).0
    ≡ 2 + 2
calls_burst_example = calls_burst 2 7 (omega arith)

days_to_ymd_lem_example :
    let t = days_to_ymd 11016 in
    (1 ≤ t.month)
    × (t.month ≤ 12)
    × (1 ≤ t.day)
    × (t.day ≤ month_length t.year t.month)
    × (day_number t ≡ 11016 + 719468)
days_to_ymd_lem_example = days_to_ymd_lem 11016 (omega arith)
