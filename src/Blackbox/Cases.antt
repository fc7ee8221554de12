-- ===== src/Blackbox/Cases.antt =====
-- src/blackbox.rs: the steps and the assertions of a test case, in order.
use axterminator.Prelude.{
  ℕ, ◌+◌, ◌-◌, ◌/◌, String, Bool, true, false, Option, none, some, List, [], ◌∷◌, if◌then◌else◌,
  format, codes, is_infix,
}
use axterminator.Prelude.OptionDo.{◌>>=◌}
use axterminator.Blackbox.{
  TestStep, TestAssertion, TestCase, TestResult, test_result_new, fail, System, ms, Done,
  execute_step,
}

module _ (sys : System) where
  open sys use {World, time, find_text}

  unfoldable pub count_step : Bool → TestResult → TestResult
  count_step done r = if done then record r { steps_completed = r.steps_completed + 1 } else r

  unfoldable pub execute_steps : List TestStep → TestResult → World → Option (TestResult × World)
  execute_steps [] r w = some (r, w)
  execute_steps (s ∷ steps) r w = do
    q ← execute_step sys s r w
    execute_steps steps (count_step q.0 q.1.0) q.1.1

  unfoldable pub assert_element_exists : String → TestResult → World → Done sys
  assert_element_exists query r w =
      let (found, w1) = find_text query w in
      elim found [
        | some text ↦ (true, (r, w1))
        | none ↦ (
          false,
          (fail (format ("ElementExists: '" ∷ query ∷ "' not in accessibility tree" ∷ [])) r, w1),
        )
      ]

  unfoldable pub assert_element_has_text : String → String → TestResult → World → Done sys
  assert_element_has_text query expected r w =
      let (found, w1) = find_text query w in
      elim found [
        | none ↦ (false, (fail (format ("ElementHasText: '" ∷ query ∷ "' not found" ∷ [])) r, w1))
        | some text ↦ if is_infix (codes expected) (codes text) then (true, (r, w1)) else (
          false,
          (
            fail
                (format (
                  "ElementHasText: '" ∷ query ∷ "' has text '" ∷ text ∷ "', expected '" ∷ expected
                  ∷ "'" ∷ []))
                r,
            w1,
          ),
        )
      ]

  unfoldable pub assert_element_not_exists : String → TestResult → World → Done sys
  assert_element_not_exists query r w =
      let (found, w1) = find_text query w in
      elim found [
        | none ↦ (true, (r, w1))
        | some text ↦ (
          false,
          (
            fail
                (format (
                  "ElementNotExists: '" ∷ query ∷ "' unexpectedly found in accessibility tree"
                  ∷ []))
                r,
            w1,
          ),
        )
      ]

  unfoldable pub assert_screen_contains : String → TestResult → World → Done sys
  assert_screen_contains needle r w =
      let (found, w1) = find_text needle w in
      elim found [
        | some text ↦ (true, (r, w1))
        | none ↦ (
          false,
          (fail (format ("ScreenContains: '" ∷ needle ∷ "' not visible on screen" ∷ [])) r, w1),
        )
      ]

  unfoldable pub check_assertion : TestAssertion → TestResult → World → Done sys
  check_assertion (TestAssertion.element_exists query) r w = assert_element_exists query r w
  check_assertion (TestAssertion.element_has_text query expected) r w =
      assert_element_has_text query expected r w
  check_assertion (TestAssertion.element_not_exists query) r w = assert_element_not_exists query r w
  check_assertion (TestAssertion.screen_contains needle) r w = assert_screen_contains needle r w

  unfoldable pub check_assertions : List TestAssertion → TestResult → World → TestResult × World
  check_assertions [] r w = (r, w)
  check_assertions (a ∷ assertions) r w =
      let (done, (r1, w1)) = check_assertion a r w in check_assertions assertions r1 w1

  -- The end of a run that was begun at a time.
  unfoldable pub close : ℕ → TestResult × World → TestResult × World
  close started (r, w) = (record r { elapsed_ms = (time w - started) / ms }, w)

  -- `run` of a tester.
  unfoldable pub run_case : TestCase → World → Option (TestResult × World)
  run_case c w = do
    q ← execute_steps c.steps (test_result_new c.name) w
    some (close (time w) (check_assertions c.assertions q.0 q.1))
