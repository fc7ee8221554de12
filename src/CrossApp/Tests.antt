-- ===== src/CrossApp/Tests.antt =====
-- src/cross_app.rs at concrete inputs.
use axterminator.Prelude.{
  ℕ, ◌^◌, ◌≤◌, ◌<◌, ◌≡◌, refl, ◌↔◌, String, true, List, [], ◌∷◌, map, length, arith,
}
use axterminator.Prelude.TextMaps
use axterminator.CrossApp.{
  TransitionTrigger, CrossAppTracker, app_state_new, tracker_new, saturating_add, change_app,
  credit, flush_dwell_time, defocus, focus, defocus_previous, focus_app, push_transition,
  record_focus, full_app_chain,
}
use axterminator.CrossApp.Detect.{
  DetectedWorkflow, names_eq, windows, insert_by, sort_by, add_one, bump, count_all,
  count_subsequences, is_subsequence_of_existing, codes_lt, names_lt, candidate_before,
  more_frequent, join, zip_all_eq, run_matches, find_or_default, find_first_occurrence,
  run_duration, add_durations, avg_workflow_duration, build_workflow, consider, consider_all, scan,
  detect_workflows, suggest_automation, suggest_from, automation_description,
}
use axterminator.CrossApp.Windows.{occurrences}
use axterminator.CrossApp.Frequent.{reported, detect_workflows-occurrences}
use axterminator.CrossApp.Tracks.{FocusEvent, record_all, names, Tracks}
use axterminator.CrossApp.Chain.{record_all-Tracks}

program : Unit {0}
unfolding app_state_new tracker_new saturating_add change_app credit flush_dwell_time defocus focus
    defocus_previous focus_app push_transition record_focus full_app_chain names_eq windows
    insert_by sort_by add_one bump count_all count_subsequences is_subsequence_of_existing codes_lt
    names_lt candidate_before more_frequent join zip_all_eq run_matches find_or_default
    find_first_occurrence run_duration add_durations avg_workflow_duration build_workflow consider
    consider_all scan detect_workflows suggest_automation suggest_from automation_description
    TextMaps.lookup TextMaps.insert
program = tt

abbrev switch : String → ℕ → FocusEvent
switch app now = (app, (TransitionTrigger.user_switch, now))

abbrev events : List FocusEvent
events =
    switch "Figma" 10
    ∷ switch "Linear" 20
    ∷ switch "VSCode" 40
    ∷ switch "Figma" 70
    ∷ switch "Linear" 80
    ∷ switch "VSCode" 95
    ∷ []

abbrev tracker : CrossAppTracker
tracker = record_all events tracker_new

abbrev cycle : List String
cycle = "Figma" ∷ "Linear" ∷ "VSCode" ∷ []

abbrev summary : DetectedWorkflow → List String × (ℕ × ℕ)
summary wf = (wf.apps, (wf.frequency, wf.avg_duration_ms))

one_workflow : map summary (detect_workflows tracker 2) ≡ (cycle, (2, 17)) ∷ []
unfolding program
one_workflow = refl

few : length (full_app_chain tracker) < 2 ^ 32
unfolding program
few = omega arith

detect_workflows-occurrences_example : (reported cycle (detect_workflows tracker 2) ≡ true) ↔ (
    (3 ≤ length cycle)
    × (length cycle ≤ 6)
    × (1 ≤ occurrences cycle (full_app_chain tracker))
    × (2 ≤ occurrences cycle (full_app_chain tracker)))
detect_workflows-occurrences_example = detect_workflows-occurrences tracker 2 cycle few

record_all-Tracks_example : Tracks (names events) (record_all events tracker_new)
record_all-Tracks_example =
    record_all-Tracks events (refl, (refl, (refl, (refl, (refl, (refl, tt))))))
