-- ===== src/Durable.antt =====
-- src/durable_steps.rs: workflow steps with retries, checkpoints, and the runner.
-- A method on `&mut self` returns the new runner. The back-end that executes an action, the clock
-- and the standard hasher are the record `Backend`; its `World` is whatever they change.
-- Arithmetic on `u32` and `usize` wraps, as a release build has it.
pub mod Retry
pub mod Passes
pub mod Run
pub mod Checkpoints
pub mod Mock
mod Tests
use axterminator.Prelude.{
  unwrap_or, and_then, map_option, ℕ, zero, suc, ◌+◌, ◌%◌, ◌^◌, String, Bool, true, false, Option,
  none, some, List, [], ◌∷◌, ◌++◌, map, Result, ok, err, length, drop, get_last?, if◌then◌else◌,
}

pub data StepAction : Type 0 where
  click : String → StepAction
  type : String → String → StepAction
  wait : String → StepAction
  assert : String → StepAction
  checkpoint : StepAction

pub record StepFailure : Type 0 where
  pub step_id : String
  pub step_index : ℕ
  pub attempts : ℕ
  pub reason : String

pub data WorkflowResult : Type 0 where
  success : (steps_executed total_retries : ℕ) → WorkflowResult
  failed : (failure : StepFailure) (last_checkpoint : Option ℕ) → WorkflowResult

pub record DurableStep : Type 0 where
  pub id : String
  pub action : StepAction
  pub max_retries : ℕ
  pub timeout_ms : ℕ

-- `DurableStep::new`
abbrev pub step_new : String → StepAction → DurableStep
step_new id action = record { id = id; action = action; max_retries = 2; timeout_ms = 5000 }

-- `DurableStep::checkpoint`
abbrev pub step_checkpoint : String → DurableStep
step_checkpoint id = record {
  id = id;
  action = StepAction.checkpoint;
  max_retries = 1;
  timeout_ms = 1000;
}

-- `DurableStep::with_retries`
abbrev pub with_retries : String → StepAction → ℕ → DurableStep
with_retries id action max_retries = record {
  id = id;
  action = action;
  max_retries = max_retries;
  timeout_ms = 5000;
}

-- `DurableStep::with_config`
abbrev pub with_config : String → StepAction → ℕ → ℕ → DurableStep
with_config id action max_retries timeout_ms = record {
  id = id;
  action = action;
  max_retries = max_retries;
  timeout_ms = timeout_ms;
}

pub record Checkpoint : Type 0 where
  pub step_index : ℕ
  pub timestamp_ms : ℕ
  pub state_hash : ℕ

pub record DurableRunner : Type 0 where
  pub current_step : ℕ
  pub checkpoints : List Checkpoint
  pub total_retries : ℕ

-- What the runner calls and this file does not implement: `StepExecutor::execute`, the system
-- clock (milliseconds since the epoch, `none` before it) and the standard library's hasher.
pub record Backend : Type 1 where
  pub World : Type 0
  pub execute : StepAction → World → Result (Unit {0}) String × World
  pub since_epoch : World → Option ℕ × World
  pub hash_all : List String → ℕ

unfoldable pub runner_new : DurableRunner
runner_new = record { current_step = 0; checkpoints = []; total_retries = 0 }

unfoldable pub reset : DurableRunner → DurableRunner
reset r = record r { current_step = 0; checkpoints = []; total_retries = 0 }

unfoldable pub resume_from_checkpoint : Checkpoint → DurableRunner → DurableRunner
resume_from_checkpoint c r = record r { current_step = (c.step_index + 1) % 2 ^ 64 }

unfoldable pub last_checkpoint : DurableRunner → Option Checkpoint
last_checkpoint r = get_last? r.checkpoints

-- `step.action == StepAction::Checkpoint`
abbrev pub is_checkpoint : StepAction → Bool
is_checkpoint StepAction.checkpoint = true
is_checkpoint _ = false

module _ (b : Backend) where
  open b use {World, execute, since_epoch, hash_all}

  unfoldable pub current_timestamp_ms : World → ℕ × World
  current_timestamp_ms w = let (t, w') = since_epoch w in (unwrap_or t 0 % 2 ^ 64, w')

  unfoldable pub hash_step_ids : List DurableStep → ℕ
  hash_step_ids steps = hash_all (map (λ s. s.id) steps)

  -- The loop `for attempt in 0..=max_retries`, with the rounds left and the loop's variables.
  unfoldable pub attempts_from : StepAction → ℕ → ℕ → String → World → Result ℕ String × World
  attempts_from action zero attempt last_err w = (err last_err, w)
  attempts_from action (suc rounds) attempt last_err w =
      let (outcome, w') = execute action w in
      elim outcome [
        | ok _ ↦ (ok attempt, w')
        | err e ↦ attempts_from action rounds (attempt + 1) e w'
      ]

  unfoldable pub execute_with_retry : DurableStep → World → Result ℕ String × World
  unfolding attempts_from
  execute_with_retry step w = attempts_from step.action (suc step.max_retries) 0 "" w

  unfoldable pub save_checkpoint :
      ℕ → List DurableStep → DurableRunner → World → DurableRunner × World
  unfolding current_timestamp_ms hash_step_ids
  save_checkpoint step_index steps r w =
      let (t, w') = current_timestamp_ms w in
      let c : Checkpoint = record {
        step_index = step_index;
        timestamp_ms = t;
        state_hash = hash_step_ids steps;
      } in
      (record r { checkpoints = r.checkpoints ++ (c ∷ []) }, w')

  -- The `Ok` arm of the loop of `run`.
  unfoldable pub step_passed :
      List DurableStep → DurableStep → ℕ → DurableRunner → World → DurableRunner × World
  unfolding save_checkpoint
  step_passed steps step retries_used r w =
      let r1 : DurableRunner = record r {
        total_retries = (r.total_retries + retries_used) % 2 ^ 32;
      } in
      let (r2, w') =
        if is_checkpoint step.action then save_checkpoint r.current_step steps r1 w else (r1, w) in
      (record r2 { current_step = r2.current_step + 1 }, w')

  -- The `Err` arm of the loop of `run`.
  unfoldable pub step_failed : DurableStep → String → DurableRunner → WorkflowResult
  unfolding last_checkpoint
  step_failed step reason r =
      WorkflowResult.failed
        (record {
          step_id = step.id;
          step_index = r.current_step;
          attempts = (step.max_retries + 1) % 2 ^ 32;
          reason = reason;
        })
        (map_option (λ c. c.step_index) (last_checkpoint r))

  -- The loop of `run`. The last list is `steps[current_step..]`, so that it ends where
  -- `current_step` reaches `steps.len()`.
  unfoldable pub run_from :
      List DurableStep
      → List DurableStep
      → DurableRunner
      → World
      → WorkflowResult × DurableRunner × World
  run_from steps [] r w = (WorkflowResult.success r.current_step r.total_retries, r, w)
  run_from steps (step ∷ rest) r w =
      let (outcome, w1) = execute_with_retry step w in
      elim outcome [
        | ok retries_used ↦
            let (r', w2) = step_passed steps step retries_used r w1 in run_from steps rest r' w2
        | err reason ↦ (step_failed step reason r, r, w1)
      ]

  unfoldable pub run :
      List DurableStep → DurableRunner → World → WorkflowResult × DurableRunner × World
  run steps r w = run_from steps (drop r.current_step steps) r w
