-- ===== src/Recording/Tests.antt =====
-- src/recording.rs at concrete inputs: a click and a key press, on a store that knows one button.
use axterminator.Prelude.{ℕ, ◌≡◌, ◌+◌, ◌*◌, false, not, some, List, [], ◌∷◌, length, map, codes}
use axterminator.Refs.{Platform, RefStore, ElementSnapshot, store_new, track}
use axterminator.Recording.{
  Floats, RecordedAction, RecordedEvent, WorkflowPlayer, recorder_new, start_recording,
  stop_recording, player_new, replay, resolve_element, result_new, now_ms,
}
use axterminator.Recording.Recorder.{record_events, stamp, session_exact}
use axterminator.Recording.Replay.{
  fails, adapts, visited, indices_where, count_not, any, failed_at, replay_lem,
}
use axterminator.Recording.Resolve.{IsResolution, resolve_element-IsResolution}

-- Numbers of a test are natural numbers.
abbrev toy_floats : Floats
toy_floats = record { F64 = ℕ; one = 1; scaled = λ f ms. f * ms }

abbrev toy : Platform
toy = record {
  Rect = ℕ;
  hash = λ role label path. 100 * length (codes label) + length path;
  lower = codes;
}

abbrev save : ElementSnapshot toy
save = record { role = "AXButton"; label = "Save"; path = "w" ∷ []; bounds = 5 }

abbrev store : RefStore toy
store = (track toy save (some 10) (store_new toy)).1

-- The button is clicked with another fingerprint, and a key is pressed on what is gone.
abbrev click_save : RecordedEvent toy_floats
click_save = record {
  timestamp = 0;
  action = RecordedAction.click 1 2;
  element_fingerprint = 9;
  element_label = "Save";
  element_role = "AXButton";
}

abbrev press_gone : RecordedEvent toy_floats
press_gone = record {
  timestamp = 0;
  action = RecordedAction.key_press "Enter" [];
  element_fingerprint = 8;
  element_label = "Gone";
  element_role = "AXButton";
}

abbrev events : List (RecordedEvent toy_floats)
events = click_save ∷ press_gone ∷ []

abbrev player : WorkflowPlayer toy_floats toy
player = player_new toy_floats toy

session_exact_example :
    let r0 = recorder_new toy_floats in
    let (captured, r') = stop_recording toy_floats (
      record_events toy_floats
        ((some 30, click_save) ∷ [])
        (start_recording toy_floats (some 10) r0)) in
    (captured ≡ map (stamp toy_floats (now_ms toy_floats (some 10))) ((some 30, click_save) ∷ []))
    × (r'.events ≡ [])
    × (r'.recording ≡ false)
    × (record_events toy_floats ((some 40, press_gone) ∷ []) r' ≡ r')
session_exact_example =
    session_exact toy_floats (recorder_new toy_floats) (some 10) ((some 30, click_save) ∷ [])
      ((some 40, press_gone) ∷ [])

replay_lem_example :
    let r = (replay toy_floats toy player events store).result in
    let v = visited toy_floats toy store player.abort_on_failure events in
    (failed_at r ≡ indices_where (fails toy_floats toy store) 0 v)
    × (r.adapted_events ≡ indices_where (adapts toy_floats toy store) 0 v)
    × (r.events_executed ≡ count_not (fails toy_floats toy store) v)
    × (r.success ≡ not (any (fails toy_floats toy store) v))
    × (r.total_events ≡ length events)
replay_lem_example = replay_lem toy_floats toy store player events

resolve_element-IsResolution_example :
    let (o, result') = resolve_element toy_floats toy click_save store 4 (result_new 2) in
    IsResolution toy_floats toy store click_save 4 (result_new 2) o result'
resolve_element-IsResolution_example =
    resolve_element-IsResolution toy_floats toy store click_save 4 (result_new 2)
