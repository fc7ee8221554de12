-- ===== src/CrossApp.antt =====
-- src/cross_app.rs, `CrossAppTracker`: the log of the applications that came to the foreground. The
-- time is an argument, in milliseconds.
pub mod Detect
pub mod Counts
pub mod Windows
pub mod Frequent
mod Apps
pub mod Tracks
pub mod Chain
mod Tests
use axterminator.Prelude.{
  ℕ, suc, ◌+◌, ◌-◌, ◌^◌, ◌%◌, min, String, Bool, true, false, Option, none, some, List, [], ◌∷◌,
  ◌++◌, map, if◌then◌else◌, str_eq, length, ltb, format, ◌==◌, map_option,
}
use axterminator.Prelude.TextMaps

pub data TransitionTrigger : Type 0 where
  user_switch automation notification unknown : TransitionTrigger

pub record AppState : Type 0 where
  pub name : String
  pub focused : Bool
  pub last_action : Option String
  pub focus_count : ℕ
  pub total_time_ms : ℕ

unfoldable pub app_state_new : String → AppState
app_state_new name = record {
  name = name;
  focused = false;
  last_action = none;
  focus_count = 0;
  total_time_ms = 0;
}

pub record AppTransition : Type 0 where
  pub from_app : String
  pub to_app : String
  pub timestamp : ℕ
  pub trigger : TransitionTrigger

pub record CrossAppTracker : Type 0 where
  pub apps : List (String × AppState)
  pub transitions : List AppTransition
  pub current_app : Option String
  pub current_focus_start_ms : ℕ

unfoldable pub tracker_new : CrossAppTracker
tracker_new = record { apps = []; transitions = []; current_app = none; current_focus_start_ms = 0 }

-- `u64`: the sum that saturates, and the step that wraps.
unfoldable pub saturating_add : ℕ → ℕ → ℕ
saturating_add m n = min (m + n) (2 ^ 64 - 1)

-- `get_mut` and a change of the state, if the app is known.
unfoldable pub change_app :
    String → (AppState → AppState) → List (String × AppState) → List (String × AppState)
change_app app f apps = elim (TextMaps.lookup app apps) [
  | none ↦ apps
  | some state ↦ TextMaps.insert app (f state) apps
]

unfoldable pub credit : ℕ → AppState → AppState
credit elapsed state = record state { total_time_ms = saturating_add state.total_time_ms elapsed }

unfoldable pub flush_dwell_time : ℕ → CrossAppTracker → CrossAppTracker
flush_dwell_time now_ms t = elim t.current_app [
  | none ↦ t
  | some app ↦ record t {
    apps = change_app app (credit (now_ms - t.current_focus_start_ms)) t.apps;
  }
]

unfoldable pub defocus : AppState → AppState
defocus state = record state { focused = false }

unfoldable pub focus : AppState → AppState
focus state = record state { focused = true; focus_count = (state.focus_count + 1) % 2 ^ 64 }

abbrev pub unwrap_or_default : Option String → String
unwrap_or_default none = ""
unwrap_or_default (some app) = app

-- An app of the empty name is taken for no app: it is not put out of focus.
unfoldable pub defocus_previous : String → List (String × AppState) → List (String × AppState)
defocus_previous from_app apps =
    if str_eq from_app "" then apps else change_app from_app defocus apps

-- `entry(app).or_insert_with(…)` and the changes of the entry.
unfoldable pub focus_app : String → List (String × AppState) → List (String × AppState)
focus_app app apps = elim (TextMaps.lookup app apps) [
  | none ↦ TextMaps.insert app (focus (app_state_new app)) apps
  | some state ↦ TextMaps.insert app (focus state) apps
]

unfoldable pub push_transition :
    String → TransitionTrigger → ℕ → Option String → List AppTransition → List AppTransition
push_transition app trigger now none ts = ts
push_transition app trigger now (some from_app) ts =
    ts ++ (record { from_app = from_app; to_app = app; timestamp = now; trigger = trigger } ∷ [])

unfoldable pub record_focus : String → TransitionTrigger → ℕ → CrossAppTracker → CrossAppTracker
record_focus app trigger now t =
    let flushed = flush_dwell_time now t in
    let from_app = unwrap_or_default flushed.current_app in
    record {
      apps = focus_app app (defocus_previous from_app flushed.apps);
      transitions = push_transition app trigger now flushed.current_app flushed.transitions;
      current_app = some app;
      current_focus_start_ms = now;
    }

unfoldable pub set_last_action : String → String → CrossAppTracker → CrossAppTracker
set_last_action app action t = record t {
  apps = change_app app (λ state. record state { last_action = some action }) t.apps;
}

unfoldable pub full_app_chain : CrossAppTracker → List String
full_app_chain t = elim t.transitions [
  | [] ↦ []
  | first ∷ ts ↦ first.from_app ∷ map (λ (t : AppTransition). t.to_app) (first ∷ ts)
]
