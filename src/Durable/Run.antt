-- ===== src/Durable/Run.antt =====
-- src/durable_steps.rs, `run`: which steps have passed when it returns, what it returns, and how
-- that follows from what the executor returned.
use axterminator.Prelude.{
  ℕ, suc, ◌+◌, ◌%◌, ◌^◌, ◌≡◌, refl, sym, ap, subst, ◌∙◌, String, Bool, true, false, List, [], ◌∷◌,
  ◌++◌, Result, ok, err, arith, drop, if◌then◌else◌, get_last?-map, map-append_one, Bool-cases, inl,
  inr,
}
use mathlib.Core.List.{append_assoc, append-nil}
use axterminator.Durable.{
  Backend, DurableStep, DurableRunner, Checkpoint, WorkflowResult, is_checkpoint,
  execute_with_retry, step_passed, step_failed, run_from, run,
}
use axterminator.Durable.Retry.{execute_with_retry-Retried}
use axterminator.Durable.Passes.{indices, Succeeds, Fails, stamped, Passes, Ended, Ran}

module _ (b : Backend) (steps : List DurableStep) where
  -- What a passed step does to the runner.
  record Advanced (s : DurableStep) (k : ℕ) (r r' : DurableRunner) : Type 0 where
    moved : r'.current_step ≡ r.current_step + 1
    counted : r'.total_retries ≡ (r.total_retries + k) % 2 ^ 32
    marked :
        indices r'.checkpoints
        ≡ indices r.checkpoints ++ (if is_checkpoint s.action then r.current_step ∷ [] else [])

  step_passed-Advanced :
      (s : DurableStep) (k : ℕ) (r : DurableRunner) (w : b.World)
      → Advanced s k r (step_passed b steps s k r w).0
  unfolding step_passed
  step_passed-Advanced s k r w = elim (Bool-cases (is_checkpoint s.action)) [
    | inl e ↦ record {
      moved = rw (e, step_passed) refl;
      counted = rw (e, step_passed) refl;
      marked =
          rw (e, step_passed) (map-append_one (λ (c : Checkpoint). c.step_index) r.checkpoints _);
    }
    | inr e ↦ record {
      moved = rw (e, step_passed) refl;
      counted = rw (e, step_passed) refl;
      marked = rw (e, step_passed) (sym (append-nil _));
    }
  ]

  step_passed-stamped :
      (s : DurableStep) (k : ℕ) (r : DurableRunner) (w : b.World)
      → (step_passed b steps s k r w).1 ≡ stamped b s w
  unfolding step_passed
  step_passed-stamped s k r w = elim (Bool-cases (is_checkpoint s.action)) [
    | inl e ↦ rw (e, step_passed) refl
    | inr e ↦ rw (e, step_passed) refl
  ]

  -- The three ways in which the loop goes on, with its callees shut.
  pub run_from-passed :
      (s : DurableStep) (rest : List DurableStep) (r : DurableRunner) (w w1 : b.World) (k : ℕ)
      → execute_with_retry b s w ≡ (ok k, w1)
      → run_from b steps (s ∷ rest) r w
        ≡ run_from b steps rest (step_passed b steps s k r w1).0 (step_passed b steps s k r w1).1
  unfolding run_from
  run_from-passed s rest r w w1 k p = ground arith

  run_from-failed :
      (s : DurableStep) (rest : List DurableStep) (r : DurableRunner) (w w1 : b.World) (e : String)
      → execute_with_retry b s w ≡ (err e, w1)
      → run_from b steps (s ∷ rest) r w ≡ (step_failed b s e r, r, w1)
  unfolding run_from
  run_from-failed s rest r w w1 e p = ground arith

  Ended-suc :
      (s : DurableStep) (rest : List DurableStep) (k : ℕ) (v : b.World) (res : WorkflowResult)
      (r : DurableRunner) (w' : b.World)
      → Ended b rest k v res r w'
      → Ended b (s ∷ rest) (suc k) v res r w'
  Ended-suc s rest k v (WorkflowResult.success n t) r w' x = (x.0, x.1, ap suc x.2, x.3)
  Ended-suc s rest k v (WorkflowResult.failed f lc) r w' x = x

  Ran-passed :
      (s : DurableStep) (rest : List DurableStep) (r r1 r' : DurableRunner) (w w1 w2 w' : b.World)
      (k : ℕ) (res : WorkflowResult)
      → Succeeds b s w k w1
      → w2 ≡ stamped b s w1
      → Advanced s k r r1
      → Ran b rest r1 w2 res r' w'
      → Ran b (s ∷ rest) r w res r' w'
  Ran-passed s rest r r1 r' w w1 w2 w' k res ok_now v a x = record {
    passed = suc x.passed;
    between = x.between;
    within = omega (arith, x.within);
    passes = Passes.pass ok_now (
        subst
          (λ u.
            Passes b rest u ((r.total_retries + k) % 2 ^ 32) x.passed x.between r'.total_retries)
          v
          (subst (λ t. Passes b rest w2 t x.passed x.between r'.total_retries) a.counted x.passes));
    cursor = omega (arith, x.cursor, a.moved);
    marks = x.marks ∙ (rw (a.marked, a.moved) (marked_at (is_checkpoint s.action) _ _));
    spent = omega (arith, x.spent, a.counted, ok_now.within);
    ended = Ended-suc s rest x.passed x.between res r' w' x.ended;
  }
    where
      marked_at :
          (c : Bool) (before after : List ℕ)
          → (before ++ (if c then r.current_step ∷ [] else [])) ++ after
            ≡ before ++ (if c then r.current_step ∷ after else after)
      marked_at true before after = append_assoc before (r.current_step ∷ []) after
      marked_at false before after = ap (λ l. l ++ after) (append-nil before)

  Ran-failed :
      (s : DurableStep) (rest : List DurableStep) (r : DurableRunner) (w w' : b.World) (e : String)
      → Fails b s w e w'
      → Ran b (s ∷ rest) r w (step_failed b s e r) r w'
  unfolding step_failed
  Ran-failed s rest r w w' e all_fail = record {
    passed = 0;
    between = w;
    within = omega arith;
    passes = Passes.stop;
    cursor = omega arith;
    marks = sym (append-nil _);
    spent = omega arith;
    ended = (
      s,
      refl,
      all_fail,
      refl,
      refl,
      refl,
      sym (get_last?-map (λ (c : Checkpoint). c.step_index) r.checkpoints),
    );
  }

  execute_with_retry-Succeeds :
      (s : DurableStep) (w w1 : b.World) (k : ℕ)
      → execute_with_retry b s w ≡ (ok k, w1)
      → Succeeds b s w k w1
  execute_with_retry-Succeeds s w w1 k p =
      let (a, d, f, v) = (execute_with_retry-Retried b s w).passed k (ap (λ q. q.0) p) in
      record { within = a; succeeds = d; before = f; world = sym (ap (λ q. q.1) p) ∙ v }

  execute_with_retry-Fails :
      (s : DurableStep) (w w1 : b.World) (e : String)
      → execute_with_retry b s w ≡ (err e, w1)
      → Fails b s w e w1
  execute_with_retry-Fails s w w1 e p =
      let (a, l, v) = (execute_with_retry-Retried b s w).gave_up e (ap (λ q. q.0) p) in
      record { all = a; last = l; world = sym (ap (λ q. q.1) p) ∙ v }

  run_from-Ran :
      (rest : List DurableStep) (r : DurableRunner) (w : b.World)
      → let (res, r', w') = run_from b steps rest r w in Ran b rest r w res r' w'
  unfolding run_from
  run_from-Ran [] r w = record {
    passed = 0;
    between = w;
    within = omega arith;
    passes = Passes.stop;
    cursor = omega arith;
    marks = sym (append-nil _);
    spent = omega arith;
    ended = (refl, refl, refl, refl);
  }
  run_from-Ran (s ∷ rest) r w = split (execute_with_retry b s w) refl (run_from-Ran rest)
    where
      split :
          (x : Result ℕ String × b.World)
          → execute_with_retry b s w ≡ x
          → ((r1 : DurableRunner) (w1 : b.World)
              → let (res, r', w') = run_from b steps rest r1 w1 in Ran b rest r1 w1 res r' w')
          → let (res, r', w') = run_from b steps (s ∷ rest) r w in Ran b (s ∷ rest) r w res r' w'
      split (ok k, w1) p ih =
          subst (λ q. Ran b (s ∷ rest) r w q.0 q.1 q.2) (sym (run_from-passed s rest r w w1 k p))
            (Ran-passed s rest r _ _ w w1 _ _ k _ (execute_with_retry-Succeeds s w w1 k p)
              (step_passed-stamped s k r w1) (step_passed-Advanced s k r w1) (ih _ _))
      split (err e, w1) p ih =
          subst (λ q. Ran b (s ∷ rest) r w q.0 q.1 q.2) (sym (run_from-failed s rest r w w1 e p))
            (Ran-failed s rest r w w1 e (execute_with_retry-Fails s w w1 e p))

  -- `run` stops in one of two ways. Let `k` be the number of steps passed by this call; they are
  -- the next ones from the cursor on, and the cursor moves by `k`. Each of them has passed since
  -- one of its executions, at most `max_retries` after the first, succeeded in the world that the
  -- steps before have left, and all before it failed; the retry total has grown by the number of
  -- failed ones, modulo 2^32, step by step, and by at most the sum of the steps' `max_retries`. A
  -- checkpoint was saved at the position of each checkpoint step among them, in order, and no
  -- other; it reads the clock. On success every step from the cursor on has passed, and the result
  -- carries the cursor and the retry total. On failure all `max_retries + 1` executions of the step
  -- at the new cursor have failed in the world that the passed steps have left, the result names
  -- that step, by its id and its position, with `max_retries + 1` attempts (modulo 2^32), the error
  -- of the last of them, and the position of the last saved checkpoint, if there is one. No other
  -- step is executed.
  pub run-Ran :
      (r : DurableRunner) (w : b.World)
      → let (res, r', w') = run b steps r w in Ran b (drop r.current_step steps) r w res r' w'
  unfolding run
  run-Ran r w = run_from-Ran (drop r.current_step steps) r w
