-- ===== src/Durable/Passes.antt =====
-- src/durable_steps.rs, `run`: what a run may have made of its steps, told by what the executor
-- returned.
use axterminator.Prelude.{
  ℕ, suc, ◌+◌, ◌%◌, ◌^◌, ◌≤◌, ◌<◌, ◌≡◌, String, true, false, some, List, [], ◌∷◌, ◌++◌, map, err,
  is_ok, length, get_elem?, take, get_last?, if◌then◌else◌,
}
use axterminator.Durable.{
  Backend, DurableStep, DurableRunner, Checkpoint, WorkflowResult, is_checkpoint,
}
use axterminator.Durable.Retry.{after, outcome}

-- The step indices of saved checkpoints, oldest first.
abbrev pub indices : List Checkpoint → List ℕ
indices cs = map (λ c. c.step_index) cs

-- The positions of the checkpoint steps, for steps that stand from position `i` on.
abbrev pub positions : ℕ → List DurableStep → List ℕ
positions i [] = []
positions i (s ∷ ss) =
    let rest = positions (i + 1) ss in if is_checkpoint s.action then i ∷ rest else rest

abbrev pub retry_budget : List DurableStep → ℕ
retry_budget [] = 0
retry_budget (s ∷ ss) = s.max_retries + retry_budget ss

module _ (b : Backend) where
  open b use {World, since_epoch}

  -- The first execution of the step's action that succeeds is number `k`, from 0, within its retries.
  pub record Succeeds (s : DurableStep) (w : World) (k : ℕ) (w1 : World) : Type 0 where
    pub within : k ≤ s.max_retries
    pub succeeds : is_ok (outcome b s.action k w) ≡ true
    pub before : (i : ℕ) → i < k → is_ok (outcome b s.action i w) ≡ false
    pub world : w1 ≡ after b s.action (suc k) w

  -- All executions that the step allows fail, the last one with the reason.
  pub record Fails (s : DurableStep) (w : World) (reason : String) (w1 : World) : Type 0 where
    pub all : (i : ℕ) → i ≤ s.max_retries → is_ok (outcome b s.action i w) ≡ false
    pub last : outcome b s.action s.max_retries w ≡ err reason
    pub world : w1 ≡ after b s.action (suc s.max_retries) w

  -- A checkpoint also reads the clock.
  abbrev pub stamped : DurableStep → World → World
  stamped s w = if is_checkpoint s.action then (since_epoch w).1 else w

  -- From a world on, the first `k` steps succeed one after the other, and their retries are added
  -- to a total.
  pub data Passes : List DurableStep → World → ℕ → ℕ → World → ℕ → Type 0 where
    stop : {rest : List DurableStep} {w : World} {t : ℕ} → Passes rest w t 0 w t
    pass :
        {s : DurableStep} {rest : List DurableStep} {w w1 w' : World} {t t' n k : ℕ}
        → Succeeds s w n w1
        → Passes rest (stamped s w1) ((t + n) % 2 ^ 32) k w' t'
        → Passes (s ∷ rest) w t (suc k) w' t'

  -- What the result says, for a run over `rest` that has passed `k` steps, was then in the world
  -- `between`, and left `r` and `w'`.
  abbrev pub Ended : List DurableStep → ℕ → World → WorkflowResult → DurableRunner → World → Type 0
  Ended rest k between (WorkflowResult.success n t) r w' =
      (n ≡ r.current_step) × (t ≡ r.total_retries) × (k ≡ length rest) × (w' ≡ between)
  Ended rest k between (WorkflowResult.failed f lc) r w' =
      (s : DurableStep) × (get_elem? rest k ≡ some s)
      × Fails s between f.reason w'
      × (f.step_id ≡ s.id)
      × (f.step_index ≡ r.current_step)
      × (f.attempts ≡ (s.max_retries + 1) % 2 ^ 32)
      × (lc ≡ get_last? (indices r.checkpoints))

  -- A run over `rest`, the steps from the cursor of `r` on, that began in `w`, returned `res` and left
  -- `r'` and `w'`.
  pub record Ran (rest : List DurableStep) (r : DurableRunner) (w : World) (res : WorkflowResult)
      (r' : DurableRunner) (w' : World) : Type 0 where
    pub passed : ℕ
    pub between : World
    pub within : passed ≤ length rest
    pub passes : Passes rest w r.total_retries passed between r'.total_retries
    pub cursor : r'.current_step ≡ r.current_step + passed
    pub marks :
        indices r'.checkpoints
        ≡ indices r.checkpoints ++ positions r.current_step (take passed rest)
    pub spent : r'.total_retries ≤ r.total_retries + retry_budget rest
    pub ended : Ended rest passed between res r' w'
