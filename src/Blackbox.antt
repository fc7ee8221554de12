-- ===== src/Blackbox.antt =====
-- src/blackbox.rs, `BlackboxTester`: a test case run against an application. Processes, the
-- accessibility tree and the clock are a world that the calls of the system read and change; a time
-- is a number of nanoseconds.
pub mod Cases
pub mod Trace
mod Counted
pub mod Run
mod Tests
use axterminator.Prelude.{
  ℕ, zero, suc, ◌+◌, ◌-◌, ◌*◌, ◌/◌, String, Bool, true, false, Option, none, some, List, [], ◌∷◌,
  ◌++◌, if◌then◌else◌, leb, format, codes, is_infix,
}
use axterminator.Prelude.OptionDo.{◌>>=◌}

pub data TestStep : Type 0 where
  launch : (app : String) → TestStep
  find_and_click : (query : String) → TestStep
  find_and_type : (query text : String) → TestStep
  wait_for_element : (query : String) → (timeout_ms : ℕ) → TestStep
  screenshot : (path : String) → TestStep

pub data TestAssertion : Type 0 where
  element_exists : (query : String) → TestAssertion
  element_has_text : (query expected : String) → TestAssertion
  element_not_exists : (query : String) → TestAssertion
  screen_contains : (needle : String) → TestAssertion

pub record TestCase : Type 0 where
  pub name : String
  pub steps : List TestStep
  pub assertions : List TestAssertion

unfoldable pub case_new : String → TestCase
case_new name = record { name = name; steps = []; assertions = [] }

unfoldable pub with_step : TestStep → TestCase → TestCase
with_step step c = record c { steps = c.steps ++ (step ∷ []) }

unfoldable pub with_assertion : TestAssertion → TestCase → TestCase
with_assertion assertion c = record c { assertions = c.assertions ++ (assertion ∷ []) }

pub record TestResult : Type 0 where
  pub name : String
  pub passed : Bool
  pub steps_completed : ℕ
  pub failures : List String
  pub screenshots : List String
  pub elapsed_ms : ℕ

unfoldable pub test_result_new : String → TestResult
test_result_new name = record {
  name = name;
  passed = true;
  steps_completed = 0;
  failures = [];
  screenshots = [];
  elapsed_ms = 0;
}

unfoldable pub fail : String → TestResult → TestResult
fail reason r = record r { passed = false; failures = r.failures ++ (reason ∷ []) }

-- How a process ended: well, or with the text of its status or error.
pub data Exit : Type 0 where
  success : Exit
  exited failed : String → Exit

-- The calls of the system. `find_text` is the search of the tree for a text; `time` is the clock.
pub record System : Type 1 where
  pub World : Type 0
  pub time : World → ℕ
  pub sleep : ℕ → World → World
  pub is_running : String → World → Bool × World
  pub open_app : String → World → Exit × World
  pub capture_screen : String → World → Exit × World
  pub find_text : String → World → Option String × World
  pub print_ms : ℕ → String

abbrev pub ms : ℕ
ms = 1000000

module _ (sys : System) where
  open sys use {World, time, sleep, is_running, open_app, capture_screen, find_text, print_ms}

  -- Whether a step or an assertion is fulfilled, and the result and the world after it.
  abbrev pub Done : Type 0
  Done = Bool × (TestResult × World)

  unfoldable pub step_launch : String → TestResult → World → Done
  step_launch app r w =
      let (running, w1) = is_running app w in
      let (status, w2) = open_app app w1 in
      if running then (true, (r, w1)) else elim status [
        | success ↦ (true, (r, sleep (500 * ms) w2))
        | exited s ↦
            (false, (fail (format ("Launch '" ∷ app ∷ "' exited with status " ∷ s ∷ [])) r, w2))
        | failed e ↦ (false, (fail (format ("Launch '" ∷ app ∷ "' failed: " ∷ e ∷ [])) r, w2))
      ]

  unfoldable pub step_find_and_click : String → TestResult → World → Done
  step_find_and_click query r w =
      let (found, w1) = find_text query w in
      elim found [
        | some text ↦ (true, (r, w1))
        | none ↦ (
          false,
          (fail (format ("FindAndClick: element not found for '" ∷ query ∷ "'" ∷ [])) r, w1),
        )
      ]

  unfoldable pub step_find_and_type : String → String → TestResult → World → Done
  step_find_and_type query typed r w =
      let (found, w1) = find_text query w in
      elim found [
        | some text ↦ (true, (r, w1))
        | none ↦ (
          false,
          (fail (format ("FindAndType: element not found for '" ∷ query ∷ "'" ∷ [])) r, w1),
        )
      ]

  unfoldable pub wait_message : String → ℕ → String
  wait_message query timeout_ms =
      format ("WaitForElement: '" ∷ query ∷ "' not found within " ∷ print_ms timeout_ms ∷ "ms" ∷ [])

  -- The loop, at most so many times; `none` if these are too few.
  unfoldable pub wait_loop : ℕ → String → ℕ → ℕ → TestResult → World → Option Done
  wait_loop zero query timeout_ms deadline r w = none
  wait_loop (suc fuel) query timeout_ms deadline r w =
      let (found, w1) = find_text query w in
      let rest = wait_loop fuel query timeout_ms deadline r (sleep (50 * ms) w1) in
      elim found [
        | some text ↦ some (true, (r, w1))
        | none ↦
            if leb deadline (time w1)
            then some (false, (fail (wait_message query timeout_ms) r, w1))
            else rest
      ]

  unfoldable pub step_wait_for_element : String → ℕ → TestResult → World → Option Done
  step_wait_for_element query timeout_ms r w =
      wait_loop (timeout_ms / 50 + 2) query timeout_ms (time w + timeout_ms * ms) r w

  unfoldable pub step_screenshot : String → TestResult → World → Done
  step_screenshot path r w =
      let (status, w1) = capture_screen path w in
      elim status [
        | success ↦ (true, (record r { screenshots = r.screenshots ++ (path ∷ []) }, w1))
        | exited s ↦ (
          false,
          (fail (format ("Screenshot to '" ∷ path ∷ "' exited with status " ∷ s ∷ [])) r, w1),
        )
        | failed e ↦
            (false, (fail (format ("Screenshot to '" ∷ path ∷ "' failed: " ∷ e ∷ [])) r, w1))
      ]

  unfoldable pub execute_step : TestStep → TestResult → World → Option Done
  execute_step (TestStep.launch app) r w = some (step_launch app r w)
  execute_step (TestStep.find_and_click query) r w = some (step_find_and_click query r w)
  execute_step (TestStep.find_and_type query text) r w = some (step_find_and_type query text r w)
  execute_step (TestStep.wait_for_element query timeout_ms) r w =
      step_wait_for_element query timeout_ms r w
  execute_step (TestStep.screenshot path) r w = some (step_screenshot path r w)
