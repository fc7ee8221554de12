-- ===== src/Recording.antt =====
-- src/recording.rs: the recorder of user actions, and the player that replays them against a store
-- of element references. The `f64` numbers of clicks, scrolls and the time scale are only moved, or
-- multiplied into a wait; they and the JSON library are parameters.
pub mod Recorder
pub mod Replay
pub mod Resolve
mod Tests
use axterminator.Prelude.{
  ℕ, ◌+◌, ◌-◌, ◌%◌, ◌^◌, String, Bool, true, false, Option, none, some, List, [], ◌∷◌, ◌++◌, map,
  Result, ok, err, is_ok, length, keep, get_last?, if◌then◌else◌, ltb, str_eq, not, ◌&&◌, ◌==◌,
  unwrap_or, map_option, format,
}
use axterminator.Refs.{Platform, RefStore, ElementRef, resolve_by_fingerprint, find_by_label}

-- The floating-point numbers that a recording carries; `scaled f ms` is
-- `(ms as f64 * f) as u64`.
pub record Floats : Type 1 where
  pub F64 : Type 0
  pub one : F64
  pub scaled : F64 → ℕ → ℕ

module _ (f : Floats) where
  open f use {F64}

  pub data RecordedAction : Type 0 where
    click : F64 → F64 → RecordedAction
    type : String → RecordedAction
    key_press : String → List String → RecordedAction
    scroll : F64 → F64 → RecordedAction
    wait : ℕ → RecordedAction

  pub record RecordedEvent : Type 0 where
    pub timestamp : ℕ
    pub action : RecordedAction
    pub element_fingerprint : ℕ
    pub element_label : String
    pub element_role : String

  pub record WorkflowRecorder : Type 0 where
    pub events : List RecordedEvent
    pub recording : Bool
    pub start_ms : ℕ

  unfoldable pub recorder_new : WorkflowRecorder
  recorder_new = record { events = []; recording = false; start_ms = 0 }

  -- `now_ms` of a clock reading (`none` before the epoch).
  abbrev pub now_ms : Option ℕ → ℕ
  now_ms t = unwrap_or (map_option (λ d. d % 2 ^ 64) t) 0

  unfoldable pub start_recording : Option ℕ → WorkflowRecorder → WorkflowRecorder
  start_recording clock r = record r { events = []; recording = true; start_ms = now_ms clock }

  unfoldable pub stop_recording : WorkflowRecorder → List RecordedEvent × WorkflowRecorder
  stop_recording r = (r.events, record r { events = []; recording = false })

  unfoldable pub event_count : WorkflowRecorder → ℕ
  event_count r = length r.events

  -- `saturating_sub` is the subtraction of ℕ.
  unfoldable pub record_event : Option ℕ → RecordedEvent → WorkflowRecorder → WorkflowRecorder
  record_event clock e r = if not r.recording then r else record r {
    events = r.events ++ (record e { timestamp = now_ms clock - r.start_ms } ∷ []);
  }

  unfoldable pub record_click :
      Option ℕ → F64 → F64 → ℕ → String → String → WorkflowRecorder → WorkflowRecorder
  record_click clock x y fingerprint label role r =
      record_event clock
        (record {
          timestamp = 0;
          action = RecordedAction.click x y;
          element_fingerprint = fingerprint;
          element_label = label;
          element_role = role;
        })
        r

  unfoldable pub record_type :
      Option ℕ → String → ℕ → String → String → WorkflowRecorder → WorkflowRecorder
  record_type clock text fingerprint label role r =
      record_event clock
        (record {
          timestamp = 0;
          action = RecordedAction.type text;
          element_fingerprint = fingerprint;
          element_label = label;
          element_role = role;
        })
        r

pub record ReplayFailure : Type 0 where
  pub event_index : ℕ
  pub reason : String

pub record ReplayResult : Type 0 where
  pub success : Bool
  pub events_executed : ℕ
  pub total_events : ℕ
  pub failures : List ReplayFailure
  pub adapted_events : List ℕ

unfoldable pub result_new : ℕ → ReplayResult
result_new total = record {
  success = true;
  events_executed = 0;
  total_events = total;
  failures = [];
  adapted_events = [];
}

unfoldable pub add_failure : ℕ → String → ReplayResult → ReplayResult
add_failure index reason r = record r {
  success = false;
  failures = r.failures ++ (record { event_index = index; reason = reason } ∷ []);
}

-- A method takes `&mut result`, and may make the thread sleep: its sleeps, in milliseconds.
pub record Playing : Type 0 where
  pub result : ReplayResult
  pub slept : List ℕ

-- `result.events_executed += 1`
abbrev pub bump_executed : Playing → Playing
bump_executed s = record s {
  result = record (s.result) { events_executed = s.result.events_executed + 1 };
}

module _ (f : Floats) (p : Platform) where
  open f use {F64, one, scaled}

  pub record WorkflowPlayer : Type 0 where
    pub abort_on_failure : Bool
    pub timing_scale : F64

  unfoldable pub player_new : WorkflowPlayer
  player_new = record { abort_on_failure = false; timing_scale = one }

  -- `into_iter().find(…)`
  abbrev pub find_role : String → List (ElementRef p) → Option (ElementRef p)
  find_role role [] = none
  find_role role (r ∷ rs) = if str_eq r.role role then some r else find_role role rs

  -- Strategy 1, `resolve_by_fingerprint(…).filter(|r| r.alive)`, tried unless the fingerprint is 0.
  unfoldable pub exact_match : RecordedEvent f → RefStore p → Option (ElementRef p)
  exact_match e store =
      if e.element_fingerprint == 0
      then none
      else elim (resolve_by_fingerprint p e.element_fingerprint store) [
        | none ↦ none
        | some r ↦ if r.alive then some r else none
      ]

  -- Strategy 2, the first live candidate by label that has the role.
  unfoldable pub label_match : RecordedEvent f → RefStore p → Option (ElementRef p)
  label_match e store =
      find_role e.element_role (keep (λ r. r.alive) (find_by_label p e.element_label store))

  unfoldable pub resolve_element :
      RecordedEvent f → RefStore p → ℕ → ReplayResult → Option (ElementRef p) × ReplayResult
  resolve_element e store index result = elim (exact_match e store) [
    | some r ↦ (some r, result)
    | none ↦ elim (label_match e store) [
      | some best ↦
          (some best, record result { adapted_events = result.adapted_events ++ (index ∷ []) })
      | none ↦ (none, result)
    ]
  ]

  -- The message of a failed action: `"<prefix>: '<label>' (<role>)"`.
  abbrev pub not_found : String → RecordedEvent f → String
  not_found prefix e = format (prefix ∷ ": '" ∷ e.element_label ∷ "' (" ∷ e.element_role ∷ ")" ∷ [])

  -- With no fingerprint recorded the click goes to the raw coordinates, and cannot fail.
  unfoldable pub execute_click :
      ℕ
      → RecordedEvent f
      → RefStore p
      → ReplayResult
      → F64
      → F64
      → Result (Unit {0}) (Unit {0}) × ReplayResult
  execute_click index e store result fallback_x fallback_y =
      let (found, result') = resolve_element e store index result in
      elim found [
        | some r ↦ (ok tt, result')
        | none ↦
            if e.element_fingerprint == 0
            then (ok tt, result')
            else (err tt, add_failure index (not_found "Element not found" e) result')
      ]

  unfoldable pub execute_type :
      ℕ
      → RecordedEvent f
      → RefStore p
      → ReplayResult
      → String
      → Result (Unit {0}) (Unit {0}) × ReplayResult
  execute_type index e store result text =
      let (found, result') = resolve_element e store index result in
      elim found [
        | some r ↦ (ok tt, result')
        | none ↦ (err tt, add_failure index (not_found "Type target not found" e) result')
      ]

  -- With no fingerprint recorded the key goes to the focus, and cannot fail.
  unfoldable pub execute_key_press :
      ℕ
      → RecordedEvent f
      → RefStore p
      → ReplayResult
      → String
      → List String
      → Result (Unit {0}) (Unit {0}) × ReplayResult
  execute_key_press index e store result key modifiers =
      let (found, result') = resolve_element e store index result in
      elim found [
        | some r ↦ (ok tt, result')
        | none ↦
            if e.element_fingerprint == 0
            then (ok tt, result')
            else (err tt, add_failure index (not_found "KeyPress target not found" e) result')
      ]

  -- With no fingerprint recorded the scroll cannot fail.
  unfoldable pub execute_scroll :
      ℕ
      → RecordedEvent f
      → RefStore p
      → ReplayResult
      → F64
      → F64
      → Result (Unit {0}) (Unit {0}) × ReplayResult
  execute_scroll index e store result dx dy =
      let (found, result') = resolve_element e store index result in
      elim found [
        | some r ↦ (ok tt, result')
        | none ↦
            if e.element_fingerprint == 0
            then (ok tt, result')
            else (err tt, add_failure index (not_found "Scroll target not found" e) result')
      ]

  -- The sleeps of `execute_wait`.
  unfoldable pub execute_wait : WorkflowPlayer → ℕ → List ℕ
  execute_wait player ms =
      let scaled_ms = scaled player.timing_scale ms in
      if ltb 0 scaled_ms then scaled_ms ∷ [] else []

  -- The `match` of `dispatch_event` on the action.
  unfoldable pub dispatch_action :
      WorkflowPlayer
      → RecordedAction f
      → ℕ
      → RecordedEvent f
      → RefStore p
      → Playing
      → Result (Unit {0}) (Unit {0}) × Playing
  dispatch_action player (RecordedAction.wait ms) index e store s =
      (ok tt, record s { slept = s.slept ++ execute_wait player ms })
  dispatch_action player (RecordedAction.click x y) index e store s =
      let (outcome, result) = execute_click index e store s.result x y in
      (outcome, record s { result = result })
  dispatch_action player (RecordedAction.type text) index e store s =
      let (outcome, result) = execute_type index e store s.result text in
      (outcome, record s { result = result })
  dispatch_action player (RecordedAction.key_press key modifiers) index e store s =
      let (outcome, result) = execute_key_press index e store s.result key modifiers in
      (outcome, record s { result = result })
  dispatch_action player (RecordedAction.scroll dx dy) index e store s =
      let (outcome, result) = execute_scroll index e store s.result dx dy in
      (outcome, record s { result = result })

  unfoldable pub dispatch_event :
      WorkflowPlayer
      → ℕ
      → RecordedEvent f
      → RefStore p
      → Playing
      → Result (Unit {0}) (Unit {0}) × Playing
  dispatch_event player index e store s = dispatch_action player e.action index e store s

  -- The loop of `replay` over `events.iter().enumerate()`, from index `i` on.
  unfoldable pub replay_from :
      WorkflowPlayer → RefStore p → ℕ → List (RecordedEvent f) → Playing → Playing
  replay_from player store i [] s = s
  replay_from player store i (e ∷ es) s =
      let (outcome, s') = dispatch_event player i e store s in
      elim outcome [
        | ok _ ↦ replay_from player store (i + 1) es (bump_executed s')
        | err _ ↦ elim player.abort_on_failure [
          | true ↦ s'
          | false ↦ replay_from player store (i + 1) es s'
        ]
      ]

  unfoldable pub replay : WorkflowPlayer → List (RecordedEvent f) → RefStore p → Playing
  replay player events store =
      replay_from player store 0 events (record { result = result_new (length events); slept = [] })
