-- ===== src/Blackbox/Counted.antt =====
-- src/blackbox.rs: how a step or an assertion changes the result and the world.
use axterminator.Prelude.{
  ◌+◌, ◌≡◌, refl, String, Bool, true, false, Option, none, some, [], ◌∷◌, length, length-append,
  is_infix, codes, arith,
}
use axterminator.Blackbox.{
  TestStep, TestAssertion, TestResult, fail, Exit, System, Done, step_launch, step_find_and_click,
  step_find_and_type, step_screenshot,
}
use axterminator.Blackbox.Cases.{
  assert_element_exists, assert_element_has_text, assert_element_not_exists, assert_screen_contains,
  check_assertion,
}
use axterminator.Blackbox.Trace.{Went, Holds, Judges, searched, query_of}

module _ (sys : System) where
  open sys use {World, time, sleep, is_running, open_app, capture_screen, find_text}

  -- A step or an assertion is fulfilled and leaves what the result says of passing, or it is not and
  -- adds one failure.
  abbrev pub Counts : TestResult → Bool → TestResult → Type 0
  Counts r true r1 =
      (r1.passed ≡ r.passed)
      × (length r1.failures ≡ length r.failures)
      × (r1.steps_completed ≡ r.steps_completed)
  Counts r false r1 =
      (r1.passed ≡ false)
      × (length r1.failures ≡ length r.failures + 1)
      × (r1.steps_completed ≡ r.steps_completed)

  abbrev pub Counted : TestResult → Done sys → Type 0
  Counted r (done, (r1, w1)) = Counts r done r1

  -- What a step comes to is what the system makes of it.
  abbrev pub Stepped : TestStep → TestResult → World → Done sys → Type 0
  Stepped s r w (done, (r1, w1)) = Counts r done r1 × Went sys s w done w1

  abbrev pub Asserted : TestAssertion → TestResult → World → Done sys → Type 0
  Asserted a r w (done, (r1, w1)) =
      Counts r done r1 × Judges sys a w done × (w1 ≡ searched sys (query_of sys a) w)

  pub fail-Counts : (reason : String) (r : TestResult) → Counts r false (fail reason r)
  unfolding fail
  fail-Counts reason r = (refl, length-append r.failures (reason ∷ []), refl)

  -- What a step comes to is a success that leaves the result but for a screenshot, or a failure.
  pub kept : (r : TestResult) → Counts r true r
  kept r = (refl, refl, refl)

  pub step_launch-Stepped :
      (app : String) (r : TestResult) (w : World)
      → Stepped (TestStep.launch app) r w (step_launch sys app r w)
  unfolding step_launch
  step_launch-Stepped app r w =
      split (is_running app w).0 (open_app app (is_running app w).1).0 refl refl
    where
      split :
          (b : Bool) (e : Exit)
          → (is_running app w).0 ≡ b
          → (open_app app (is_running app w).1).0 ≡ e
          → Stepped (TestStep.launch app) r w (step_launch sys app r w)
      split true e h k = rw (h, step_launch) (kept r, Went.running h)
      split false Exit.success h k = rw (h, k, step_launch) (kept r, Went.opened h k)
      split false (Exit.exited s) h k =
          rw (h, k, step_launch)
            (fail-Counts _ r, Went.not_opened h (λ q. absurd (ground (arith, q, k))))
      split false (Exit.failed s) h k =
          rw (h, k, step_launch)
            (fail-Counts _ r, Went.not_opened h (λ q. absurd (ground (arith, q, k))))

  pub step_screenshot-Stepped :
      (path : String) (r : TestResult) (w : World)
      → Stepped (TestStep.screenshot path) r w (step_screenshot sys path r w)
  unfolding step_screenshot
  step_screenshot-Stepped path r w = split (capture_screen path w).0 refl
    where
      split :
          (e : Exit)
          → (capture_screen path w).0 ≡ e
          → Stepped (TestStep.screenshot path) r w (step_screenshot sys path r w)
      split Exit.success k = rw (k, step_screenshot) ((refl, refl, refl), Went.captured k)
      split (Exit.exited s) k =
          rw (k, step_screenshot)
            (fail-Counts _ r, Went.not_captured (λ q. absurd (ground (arith, q, k))))
      split (Exit.failed s) k =
          rw (k, step_screenshot)
            (fail-Counts _ r, Went.not_captured (λ q. absurd (ground (arith, q, k))))

  pub step_find_and_click-Stepped :
      (query : String) (r : TestResult) (w : World)
      → Stepped (TestStep.find_and_click query) r w (step_find_and_click sys query r w)
  unfolding step_find_and_click
  step_find_and_click-Stepped query r w = split (find_text query w).0 refl
    where
      split :
          (o : Option String)
          → (find_text query w).0 ≡ o
          → Stepped (TestStep.find_and_click query) r w (step_find_and_click sys query r w)
      split none h = rw (h, step_find_and_click) (fail-Counts _ r, Went.no_click h)
      split (some t) h = rw (h, step_find_and_click) (kept r, Went.to_click (t, h))

  pub step_find_and_type-Stepped :
      (query : String) (text : String) (r : TestResult) (w : World)
      → Stepped (TestStep.find_and_type query text) r w (step_find_and_type sys query text r w)
  unfolding step_find_and_type
  step_find_and_type-Stepped query text r w = split (find_text query w).0 refl
    where
      split :
          (o : Option String)
          → (find_text query w).0 ≡ o
          → Stepped (TestStep.find_and_type query text) r w (step_find_and_type sys query text r w)
      split none h = rw (h, step_find_and_type) (fail-Counts _ r, Went.no_type h)
      split (some t) h = rw (h, step_find_and_type) (kept r, Went.to_type (t, h))

  pub assert_element_exists-Asserted :
      (query : String) (r : TestResult) (w : World)
      → Asserted (TestAssertion.element_exists query) r w (assert_element_exists sys query r w)
  unfolding assert_element_exists
  assert_element_exists-Asserted query r w = split (find_text query w).0 refl
    where
      split :
          (o : Option String)
          → (find_text query w).0 ≡ o
          → Asserted (TestAssertion.element_exists query) r w (assert_element_exists sys query r w)
      split none h =
          rw (h, assert_element_exists)
            (fail-Counts _ r, (λ f. absurd (ground (arith, h, f.1))), refl)
      split (some t) h = rw (h, assert_element_exists) (kept r, (t, h), refl)

  pub assert_element_not_exists-Asserted :
      (query : String) (r : TestResult) (w : World)
      → Asserted
          (TestAssertion.element_not_exists query)
          r
          w
          (assert_element_not_exists sys query r w)
  unfolding assert_element_not_exists
  assert_element_not_exists-Asserted query r w = split (find_text query w).0 refl
    where
      split :
          (o : Option String)
          → (find_text query w).0 ≡ o
          → Asserted
              (TestAssertion.element_not_exists query)
              r
              w
              (assert_element_not_exists sys query r w)
      split none h = rw (h, assert_element_not_exists) (kept r, h, refl)
      split (some t) h =
          rw (h, assert_element_not_exists)
            (fail-Counts _ r, (λ f. absurd (ground (arith, h, f))), refl)

  pub assert_screen_contains-Asserted :
      (needle : String) (r : TestResult) (w : World)
      → Asserted (TestAssertion.screen_contains needle) r w (assert_screen_contains sys needle r w)
  unfolding assert_screen_contains
  assert_screen_contains-Asserted needle r w = split (find_text needle w).0 refl
    where
      split :
          (o : Option String)
          → (find_text needle w).0 ≡ o
          → Asserted
              (TestAssertion.screen_contains needle)
              r
              w
              (assert_screen_contains sys needle r w)
      split none h =
          rw (h, assert_screen_contains)
            (fail-Counts _ r, (λ f. absurd (ground (arith, h, f.1))), refl)
      split (some t) h = rw (h, assert_screen_contains) (kept r, (t, h), refl)

  pub assert_element_has_text-Asserted :
      (query expected : String) (r : TestResult) (w : World)
      → Asserted
          (TestAssertion.element_has_text query expected)
          r
          w
          (assert_element_has_text sys query expected r w)
  unfolding assert_element_has_text
  assert_element_has_text-Asserted query expected r w = split (find_text query w).0 refl
    where
      split :
          (o : Option String)
          → (find_text query w).0 ≡ o
          → Asserted
              (TestAssertion.element_has_text query expected)
              r
              w
              (assert_element_has_text sys query expected r w)
      split none h =
          rw (h, assert_element_has_text)
            (fail-Counts _ r, (λ f. absurd (ground (arith, h, f.1))), refl)
      split (some t) h = contains (is_infix (codes expected) (codes t)) refl
        where
          refuted :
              is_infix (codes expected) (codes t) ≡ false
              → ¬ Holds sys (TestAssertion.element_has_text query expected) w
          refuted k (u, e, i) = ground (arith, h, e, i, k)

          contains :
              (b : Bool)
              → is_infix (codes expected) (codes t) ≡ b
              → Asserted
                  (TestAssertion.element_has_text query expected)
                  r
                  w
                  (assert_element_has_text sys query expected r w)
          contains true k = rw (h, k, assert_element_has_text) (kept r, (t, h, k), refl)
          contains false k = rw (h, k, assert_element_has_text) (fail-Counts _ r, refuted k, refl)

  pub check_assertion-Asserted :
      (a : TestAssertion) (r : TestResult) (w : World) → Asserted a r w (check_assertion sys a r w)
  unfolding check_assertion
  check_assertion-Asserted (TestAssertion.element_exists query) r w =
      assert_element_exists-Asserted query r w
  check_assertion-Asserted (TestAssertion.element_has_text query expected) r w =
      assert_element_has_text-Asserted query expected r w
  check_assertion-Asserted (TestAssertion.element_not_exists query) r w =
      assert_element_not_exists-Asserted query r w
  check_assertion-Asserted (TestAssertion.screen_contains needle) r w =
      assert_screen_contains-Asserted needle r w
