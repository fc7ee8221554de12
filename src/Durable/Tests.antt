-- ===== src/Durable/Tests.antt =====
-- Runs of src/durable_steps.rs on small workflows, and its theorems at concrete inputs.
use axterminator.Prelude.{◌≡◌, refl, some, List, [], ◌∷◌, ok, err, drop, arith}
use axterminator.Durable.{
  StepAction, DurableStep, DurableRunner, Checkpoint, WorkflowResult, step_new, step_checkpoint,
  with_retries, runner_new, run, run_from, execute_with_retry, attempts_from, step_passed,
  step_failed, save_checkpoint, current_timestamp_ms, hash_step_ids, last_checkpoint,
}
use axterminator.Durable.Mock
use axterminator.Durable.Mock.{MockExecutor, mock_backend, always_ok, from_results, run-always_ok}
use axterminator.Durable.Retry.{Retried, execute_with_retry-Retried}
use axterminator.Durable.Passes.{Ran}
use axterminator.Durable.Run.{run-Ran}
use axterminator.Durable.Checkpoints.{
  IsValid, Recovery, runner_new-IsValid, run-IsValid, resume-Recovery,
}

program : Unit {0}
unfolding run run_from execute_with_retry attempts_from step_passed step_failed save_checkpoint
    current_timestamp_ms hash_step_ids runner_new always_ok from_results Mock.execute
    last_checkpoint
program = tt

abbrev steps : List DurableStep
steps =
    step_new "a" (StepAction.click "File")
    ∷ step_checkpoint "cp"
    ∷ with_retries "b" (StepAction.click "Save") 1
    ∷ []

-- The first step fails once, the last step fails twice.
abbrev flaky : MockExecutor
flaky = record {
  results = err "busy" ∷ ok tt ∷ ok tt ∷ err "gone" ∷ err "still gone" ∷ [];
  received = [];
}

abbrev stopped : DurableRunner
stopped = record {
  current_step = 2;
  checkpoints = record { step_index = 1; timestamp_ms = 7; state_hash = 3 } ∷ [];
  total_retries = 1;
}

flaky_fails :
    let (res, r, w) = run (mock_backend 7) steps runner_new flaky in
    (res
      ≡ WorkflowResult.failed
          (record { step_id = "b"; step_index = 2; attempts = 2; reason = "still gone" })
          (some 1))
    × (r ≡ stopped)
unfolding program
flaky_fails = (refl, refl)

execute_with_retry-Retried_example :
    Retried (mock_backend 7) (with_retries "b" (StepAction.click "Save") 1) flaky
execute_with_retry-Retried_example =
    execute_with_retry-Retried (mock_backend 7) (with_retries "b" (StepAction.click "Save") 1) flaky

run-Ran_example :
    let (res, r, w) = run (mock_backend 7) steps runner_new flaky in
    Ran (mock_backend 7) (drop runner_new.current_step steps) runner_new flaky res r w
run-Ran_example = run-Ran (mock_backend 7) steps runner_new flaky

run-IsValid_example : IsValid steps (run (mock_backend 7) steps runner_new flaky).1
run-IsValid_example = run-IsValid steps (mock_backend 7) runner_new flaky (runner_new-IsValid steps)

abbrev saved : Checkpoint
saved = record { step_index = 1; timestamp_ms = 7; state_hash = 3 }

resume-Recovery_example : Recovery steps stopped saved
unfolding last_checkpoint
resume-Recovery_example =
    resume-Recovery steps stopped saved (omega arith)
      (record { cursor_in = omega arith; exact = refl }) refl
