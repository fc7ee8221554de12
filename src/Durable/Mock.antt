-- ===== src/Durable/Mock.antt =====
-- src/durable_steps.rs, `MockExecutor`: an executor that replays a script, here as a back-end of the
-- runner, and what a run against it executes.
use axterminator.Prelude.{
  ℕ, ◌+◌, ◌≡◌, refl, sym, ap, ap₂, ◌∙◌, String, some, List, [], ◌∷◌, ◌++◌, map, Result, ok, length,
  arith,
}
use mathlib.Core.List.{append_assoc, append-nil}
use axterminator.Durable.{
  Backend, StepAction, DurableStep, DurableRunner, WorkflowResult, runner_new, run, run_from,
  execute_with_retry, step_passed,
}
use axterminator.Durable.Run.{run_from-passed}

pub record MockExecutor : Type 0 where
  pub results : List (Result (Unit {0}) String)
  pub received : List StepAction

unfoldable pub always_ok : MockExecutor
always_ok = record { results = []; received = [] }

unfoldable pub from_results : List (Result (Unit {0}) String) → MockExecutor
from_results results = record { results = results; received = [] }

-- `self.results.remove(0)` on a list that is not empty.
next_result : List (Result (Unit {0}) String) → Result (Unit {0}) String
next_result [] = ok tt
next_result (r ∷ rs) = r

rest_results : List (Result (Unit {0}) String) → List (Result (Unit {0}) String)
rest_results [] = []
rest_results (r ∷ rs) = rs

unfoldable pub execute : StepAction → MockExecutor → Result (Unit {0}) String × MockExecutor
unfolding next_result rest_results
execute action m = (
  next_result m.results,
  record { results = rest_results m.results; received = m.received ++ (action ∷ []) },
)

-- The runner's back-end over the mock, with a clock that stands still and a hash that counts.
abbrev pub mock_backend : ℕ → Backend
mock_backend now = record {
  World = MockExecutor;
  execute = execute;
  since_epoch = λ m. (some now, m);
  hash_all = λ ids. length ids;
}

module _ (now : ℕ) (steps : List DurableStep) where
  retry_ok :
      (s : DurableStep) (m : MockExecutor)
      → m.results ≡ []
      → execute_with_retry (mock_backend now) s m
        ≡ (ok 0, record m { received = m.received ++ (s.action ∷ []) })
  unfolding execute_with_retry execute
  retry_ok s m h = rw h refl

  step_passed_ok :
      (s : DurableStep) (r : DurableRunner) (m : MockExecutor)
      → r.total_retries ≡ 0
      → let (r', m') = step_passed (mock_backend now) steps s 0 r m in
        (r'.total_retries ≡ 0) × (r'.current_step ≡ r.current_step + 1) × (m' ≡ m)
  unfolding step_passed
  step_passed_ok s r m h = ground arith

  run_from-always_ok :
      (rest : List DurableStep) (r : DurableRunner) (m : MockExecutor)
      → m.results ≡ []
      → r.total_retries ≡ 0
      → let (res, r', m') = run_from (mock_backend now) steps rest r m in
        (res ≡ WorkflowResult.success (r.current_step + length rest) 0)
        × (m'.received ≡ m.received ++ map (λ s. s.action) rest)
  unfolding run_from
  run_from-always_ok [] r m h z = (ap₂ WorkflowResult.success (omega arith) z, sym (append-nil _))
  run_from-always_ok (s ∷ rest) r m h z =
      let m1 : MockExecutor = record m { received = m.received ++ (s.action ∷ []) } in
      let passed = step_passed_ok s r m1 z in
      let (a, c) =
        run_from-always_ok rest (step_passed (mock_backend now) steps s 0 r m1).0
          (step_passed (mock_backend now) steps s 0 r m1).1
          (ap (λ (x : MockExecutor). x.results) passed.2 ∙ h) passed.0 in
      rw (run_from-passed (mock_backend now) steps s rest r m m1 0 (retry_ok s m h)) (
        a ∙ ap (λ n. WorkflowResult.success n 0) (omega (arith, passed.1)),
        c
            ∙ ap (λ (x : MockExecutor). x.received ++ map (λ (s : DurableStep). s.action) rest)
                passed.2
            ∙ append_assoc m.received (s.action ∷ []) (map (λ (s : DurableStep). s.action) rest),
      )

-- Against an executor whose script is empty, a fresh run succeeds with no retry, and executes the
-- action of every step once, checkpoints included, in order.
pub run-always_ok :
    (now : ℕ) (steps : List DurableStep)
    → let (res, r', m') = run (mock_backend now) steps runner_new always_ok in
      (res ≡ WorkflowResult.success (length steps) 0) × (m'.received ≡ map (λ s. s.action) steps)
unfolding run runner_new always_ok
run-always_ok now steps =
    let x =
      run_from-always_ok now steps steps
        (record { current_step = 0; checkpoints = []; total_retries = 0 })
        (record { results = []; received = [] }) refl refl in
    (x.0 ∙ ap (λ n. WorkflowResult.success n 0) (omega arith), x.1)
