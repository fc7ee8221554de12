-- ===== src/Blackbox/Tests.antt =====
-- src/blackbox.rs at a concrete system.
use axterminator.Prelude.{
  ℕ, ◌+◌, ◌≡◌, refl, Bool, true, false, Option, none, some, [], ◌∷◌, arith, map_option, is_infix,
  is_prefix, ltb, if◌then◌else◌, length,
}
use axterminator.Blackbox.{
  TestStep, TestAssertion, TestCase, TestResult, case_new, with_step, with_assertion,
  test_result_new, fail, Exit, System, step_launch, step_find_and_click, wait_loop,
  step_wait_for_element, step_screenshot, execute_step,
}
use axterminator.Blackbox.Cases.{
  count_step, execute_steps, assert_element_has_text, assert_element_not_exists, check_assertion,
  check_assertions, close, run_case,
}
use axterminator.Blackbox.Run.{Clock, run_case-Judged}
use axterminator.Blackbox.Trace.{Judged}

program : Unit {0}
unfolding case_new with_step with_assertion test_result_new fail step_launch step_find_and_click
    wait_loop step_wait_for_element step_screenshot execute_step count_step execute_steps
    assert_element_has_text assert_element_not_exists check_assertion check_assertions close
    run_case is_infix is_prefix
program = tt

-- A world that is a clock: every text is found from the first tenth of a second on.
abbrev slow : System
slow = record {
  World = ℕ;
  time = λ w. w;
  sleep = λ n w. w + n;
  is_running = λ app w. (true, w);
  open_app = λ app w. (Exit.success, w);
  capture_screen = λ path w. (Exit.failed "denied", w);
  find_text = λ q w. (if ltb w 100000000 then none else some "Saved", w);
  print_ms = λ n. "?";
}

slow_clock : Clock slow
slow_clock = record { searches = λ q w. omega arith; sleeps = λ n w. omega arith }

abbrev scenario : TestCase
scenario = record {
  name = "save";
  steps =
      TestStep.launch "TextEdit"
      ∷ TestStep.wait_for_element "Saved" 70
      ∷ TestStep.find_and_click "Saved"
      ∷ TestStep.screenshot "a.png"
      ∷ [];
  assertions =
      TestAssertion.element_has_text "Saved" "Save" ∷ TestAssertion.element_not_exists "Saved" ∷ [];
}

abbrev summary : TestResult × ℕ → Bool × (ℕ × (ℕ × ℕ))
summary q = (q.0.passed, (q.0.steps_completed, (length q.0.failures, q.0.elapsed_ms)))

abbrev expected : Option (Bool × (ℕ × (ℕ × ℕ)))
expected = some (false, (3, (2, 100)))

two_failures : map_option summary (run_case slow scenario 0) ≡ expected
unfolding program
two_failures = refl

run_case-Judged_example :
    (q : TestResult × ℕ) × (run_case slow scenario 0 ≡ some q) × Judged slow scenario 0 q
run_case-Judged_example = run_case-Judged slow slow_clock scenario 0
