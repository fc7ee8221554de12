-- ===== src/Blackbox/Run.antt =====
-- src/blackbox.rs, `run`: that it comes to an end, and what its result says.
use axterminator.Prelude.{
  ℕ, zero, suc, ◌+◌, ◌*◌, ◌/◌, ◌≤◌, ◌≡◌, refl, sym, ap, subst, ◌∙◌, String, Bool, true, false,
  Option, none, some, List, [], ◌∷◌, length, leb, arith,
}
use axterminator.Prelude.OptionDo.{◌>>=◌}
use axterminator.Blackbox.Counted.{
  Counts, Stepped, fail-Counts, kept, step_launch-Stepped, step_screenshot-Stepped,
  step_find_and_click-Stepped, step_find_and_type-Stepped, check_assertion-Asserted,
}
use axterminator.Blackbox.Trace.{
  Went, Waits, Judges, Performed, Checked, Judged, searched, query_of,
}
use axterminator.Blackbox.{
  TestStep, TestAssertion, TestCase, TestResult, test_result_new, System, ms, Done, wait_loop,
  step_wait_for_element, execute_step,
}
use axterminator.Blackbox.Cases.{
  count_step, execute_steps, check_assertion, check_assertions, close, run_case,
}

module _ (sys : System) where
  open sys use {World, time, sleep, find_text}

  -- What the loop that waits relies on: a search does not set the clock back, and a sleep lasts at
  -- least as long as asked for.
  pub record Clock : Type 0 where
    pub searches : (q : String) (w : World) → time w ≤ time (find_text q w).1
    pub sleeps : (n : ℕ) (w : World) → time w + n ≤ time (sleep n w)

  -- The loop ends within the attempts that it takes to sleep until the deadline.
  module _ (clock : Clock) where
    abbrev Ends : String → ℕ → TestResult → World → Option (Done sys) → Type 0
    Ends query deadline r w o =
        (d : Done sys) × (o ≡ some d)
        × Counts sys r d.0 d.1.0
        × Waits sys query deadline w d.0 d.1.1

    wait_loop_step :
        (fuel : ℕ) (query : String) (timeout_ms deadline : ℕ) (r : TestResult) (w : World)
        → (leb deadline (time (find_text query w).1) ≡ false
            → Ends query deadline r (sleep (50 * ms) (find_text query w).1) (
                wait_loop sys fuel query timeout_ms deadline r
                  (sleep (50 * ms) (find_text query w).1)))
        → Ends query deadline r w (wait_loop sys (suc fuel) query timeout_ms deadline r w)
    unfolding wait_loop
    wait_loop_step fuel query timeout_ms deadline r w rest =
        split (find_text query w).0 (leb deadline (time (find_text query w).1)) refl refl
      where
        split :
            (o : Option String) (b : Bool)
            → (find_text query w).0 ≡ o
            → leb deadline (time (find_text query w).1) ≡ b
            → Ends query deadline r w (wait_loop sys (suc fuel) query timeout_ms deadline r w)
        split (some t) b e f = rw (e, wait_loop) (_, refl, kept sys r, Waits.seen (t, e))
        split none true e f =
            rw (e, f, wait_loop) (_, refl, fail-Counts sys _ r, Waits.late e (ground (arith, f)))
        split none false e f =
            let (d, g, c, v) = rest f in
            let same : wait_loop sys (suc fuel) query timeout_ms deadline r w
                ≡ wait_loop sys fuel query timeout_ms deadline r
                    (sleep (50 * ms) (find_text query w).1) =
              rw (e, f, wait_loop) refl in
            (d, same ∙ g, c, Waits.again e (ground (arith, f)) v)

    wait_loop-Ends :
        (fuel : ℕ) (query : String) (timeout_ms deadline : ℕ) (r : TestResult) (w : World)
        → deadline ≤ time w + fuel * 50000000
        → Ends query deadline r w (wait_loop sys (suc fuel) query timeout_ms deadline r w)
    wait_loop-Ends zero query timeout_ms deadline r w h =
        wait_loop_step zero query timeout_ms deadline r w
          (λ f. absurd (ground (arith, f, h, clock.searches query w)))
    wait_loop-Ends (suc fuel) query timeout_ms deadline r w h =
        wait_loop_step (suc fuel) query timeout_ms deadline r w (λ f.
          wait_loop-Ends fuel query timeout_ms deadline r _ (
            omega (arith, h, clock.searches query w, clock.sleeps (50 * ms) (find_text query w).1)))

    execute_step-Stepped :
        (s : TestStep) (r : TestResult) (w : World)
        → (d : Done sys) × (execute_step sys s r w ≡ some d) × Stepped sys s r w d
    unfolding execute_step step_wait_for_element
    execute_step-Stepped (TestStep.launch app) r w = (_, refl, step_launch-Stepped sys app r w)
    execute_step-Stepped (TestStep.find_and_click query) r w =
        (_, refl, step_find_and_click-Stepped sys query r w)
    execute_step-Stepped (TestStep.find_and_type query text) r w =
        (_, refl, step_find_and_type-Stepped sys query text r w)
    execute_step-Stepped (TestStep.wait_for_element query timeout_ms) r w =
        let last : timeout_ms / 50 + 2 ≡ suc (timeout_ms / 50 + 1) = omega arith in
        let deadline : ℕ = time w + timeout_ms * ms in
        let (d, e, c, v) =
          subst (λ n. Ends query deadline r w (wait_loop sys n query timeout_ms deadline r w))
            (sym last)
            (wait_loop-Ends (timeout_ms / 50 + 1) query timeout_ms deadline r w (omega arith)) in
        (d, e, (c, Went.waited v))
    execute_step-Stepped (TestStep.screenshot path) r w =
        (_, refl, step_screenshot-Stepped sys path r w)

    -- What a result says after some steps and assertions, with so many steps completed and so many
    -- failures, given what it said before.
    abbrev Adds : ℕ → ℕ → TestResult → TestResult → Type 0
    Adds n k r r1 =
        (r1.steps_completed ≡ r.steps_completed + n)
        × (length r1.failures ≡ length r.failures + k)
        × (r.passed ≡ leb (length r.failures) 0 → r1.passed ≡ leb (length r1.failures) 0)

    abbrev Accounted : List TestStep → TestResult → World → TestResult × World → ℕ → ℕ → Type 0
    Accounted steps r w q n m =
        Performed sys steps w n m q.1 × (n + m ≡ length steps) × Adds n m r q.0

    Performed-next :
        (s : TestStep) (steps : List TestStep) (r r1 : TestResult) (w w1 : World)
        (q : TestResult × World) (done : Bool) (n m : ℕ)
        → Counts sys r done r1
        → Went sys s w done w1
        → Accounted steps (count_step sys done r1) w1 q n m
        → (n' m' : ℕ) × Accounted (s ∷ steps) r w q n' m'
    unfolding count_step
    Performed-next s steps r r1 w w1 q true n m (x, y, z) v (t, l, (d, f, p)) = (
      suc n,
      m,
      (
        Performed.fulfilled v t,
        omega (arith, l),
        (omega arith, omega arith, λ u. p (x ∙ u ∙ ap (λ k. leb k 0) (sym y))),
      ),
    )
    Performed-next s steps r r1 w w1 q false n m (x, y, z) v (t, l, (d, f, p)) = (
      n,
      suc m,
      (
        Performed.missed v t,
        omega (arith, l),
        (omega arith, omega arith, λ u. p (ground (arith, x, y))),
      ),
    )

    -- The steps are performed to the end, and the result counts them.
    execute_steps-Performed :
        (steps : List TestStep) (r : TestResult) (w : World)
        → (q : TestResult × World) × (n m : ℕ) × (execute_steps sys steps r w ≡ some q)
          × Accounted steps r w q n m
    unfolding execute_steps
    execute_steps-Performed [] r w =
        ((r, w), 0, 0, refl, (Performed.finished, refl, (omega arith, omega arith, λ p. p)))
    execute_steps-Performed (s ∷ steps) r w =
        let (d, e, (c, v)) = execute_step-Stepped s r w in
        let (q, n, m, f, rest) = execute_steps-Performed steps (count_step sys d.0 d.1.0) d.1.1 in
        let (n', m', counts) = Performed-next s steps r d.1.0 w d.1.1 q d.0 n m c v rest in
        (q, n', m', ap (λ o. o >>= next) e ∙ f, counts)
      where
        next : Done sys → Option (TestResult × World)
        next q = execute_steps sys steps (count_step sys q.0 q.1.0) q.1.1

    Checked-next :
        (a : TestAssertion) (assertions : List TestAssertion) (r r1 : TestResult) (w w1 : World)
        (q : TestResult × World) (done : Bool)
        → Counts sys r done r1
        → Judges sys a w done
        → w1 ≡ searched sys (query_of sys a) w
        → (k : ℕ) × Checked sys assertions w1 k q.1 × Adds 0 k r1 q.0
        → (k : ℕ) × Checked sys (a ∷ assertions) w k q.1 × Adds 0 k r q.0
    Checked-next a assertions r r1 w w1 q true (x, y, z) h e (k, t, (d, l, p)) = (
      k,
      Checked.holding h (subst (λ v. Checked sys assertions v k q.1) e t),
      (omega arith, omega arith, λ u. p (x ∙ u ∙ ap (λ k. leb k 0) (sym y))),
    )
    Checked-next a assertions r r1 w w1 q false (x, y, z) h e (k, t, (d, l, p)) = (
      suc k,
      Checked.not_holding h (subst (λ v. Checked sys assertions v k q.1) e t),
      (omega arith, omega arith, λ u. p (ground (arith, x, y))),
    )

    -- The assertions are all checked, and the result counts those that do not hold.
    check_assertions-Checked :
        (assertions : List TestAssertion) (r : TestResult) (w : World)
        → (k : ℕ) × Checked sys assertions w k (check_assertions sys assertions r w).1
          × Adds 0 k r (check_assertions sys assertions r w).0
    unfolding check_assertions
    check_assertions-Checked [] r w = (0, Checked.all_checked, (omega arith, omega arith, λ p. p))
    check_assertions-Checked (a ∷ assertions) r w =
        let d = check_assertion sys a r w in
        let (c, h, e) = check_assertion-Asserted sys a r w in
        Checked-next a assertions r d.1.0 w d.1.1 (check_assertions sys assertions d.1.0 d.1.1) d.0
          c h e (check_assertions-Checked assertions d.1.0 d.1.1)

    -- On a system whose searches do not set the clock back and whose sleeps are long enough, a run
    -- of a test case ends, also where it waits for an element. All its steps are performed in
    -- order, also after one that is not fulfilled: a launch is fulfilled if the app runs or is
    -- opened, a click and a typing if their text is found, a wait if one of the searches, 50 ms
    -- apart, up to the first that ends at its deadline or later finds its text, a screenshot if it
    -- is captured. Then every assertion is checked, with one search each. The result counts the
    -- steps fulfilled as completed; it has one failure for each step not fulfilled and for each
    -- assertion that does not hold, and no other; it has passed exactly if there is no failure; and
    -- its time is that of the whole run.
    pub run_case-Judged :
        (c : TestCase) (w : World)
        → (q : TestResult × World) × (run_case sys c w ≡ some q) × Judged sys c w q
    unfolding run_case close test_result_new
    run_case-Judged c w =
        let (q, n, m, e, (t, l, (d, f, p))) =
          execute_steps-Performed c.steps (test_result_new c.name) w in
        let (k, u, (d1, f1, p1)) = check_assertions-Checked c.assertions q.0 q.1 in
        (
          next q.0 q.1,
          ap (λ o. o >>= (λ q. some (next q.0 q.1))) e,
          record {
            fulfilled = n;
            missed = m;
            not_holding = k;
            between = q.1;
            performed = t;
            checked = u;
            all_steps = l;
            completed = omega (arith, d, d1);
            failed = omega (arith, f, f1);
            passed = p1 (p refl);
            elapsed = refl;
          },
        )
      where
        next : TestResult → World → TestResult × World
        next r v = close sys (time w) (check_assertions sys c.assertions r v)
