-- ===== src/Workflow.antt =====
-- src/mcp/tools_innovation/workflow.rs, with `WorkflowState` of src/mcp/server.rs: the workflow
-- plans of a session, and the three tools that create, advance and show them. The parser of the
-- steps is in Workflow/Parse. A reply is kept as data, before its JSON is composed.
pub mod Parse
pub mod Advance
pub mod Store
pub mod Read
mod Session
mod Tests
use axterminator.Prelude.{
  ℕ, ◌+◌, ◌%◌, ◌^◌, String, Bool, true, false, Option, none, some, List, [], ◌∷◌, ◌++◌, Result, ok,
  err, length, get_elem?, leb, if◌then◌else◌, format, ◌⊎◌, inl, inr,
}
use axterminator.Prelude.TextMaps
use axterminator.Json.{Json, get, get_str}
use axterminator.Durable.{DurableStep, StepAction, WorkflowResult}
use axterminator.Workflow.Parse.{parse_workflow_steps, reject_unknown_fields}

pub record WorkflowState : Type 0 where
  pub steps : List DurableStep
  pub current_step : ℕ
  pub results : List WorkflowResult
  pub completed : Bool

-- `Arc<Mutex<HashMap<String, WorkflowState>>>`
pub record Workflows : Type 0 where
  pub poisoned : Bool
  pub plans : List (String × WorkflowState)

-- A progress message, with its numbers not yet printed.
abbrev pub Message : Type 0
Message = List (String ⊎ ℕ)

pub record Progress : Type 0 where
  pub token : ℕ
  pub progress : ℕ
  pub total : ℕ
  pub message : Message

-- The notifications emitted, and the process-wide counter of progress tokens.
pub record Out : Type 0 where
  pub next_token : ℕ
  pub lines : List Progress

pub data Reply : Type 0 where
  created : (name : String) (step_count : ℕ) → Reply
  stepped :
      (step_id : Option String) (step_index : ℕ) (completed : Bool) (action : Option String)
      (message : String)
      → Reply
  status :
      (name : String) (current_step total_steps : ℕ) (completed : Bool) (results_count : ℕ) → Reply

-- `ToolCallResult`: its payload, or the message of an error.
abbrev pub ToolResult : Type 0
ToolResult = Result Reply String

unfoldable pub step_action_label : StepAction → String
step_action_label (StepAction.click q) = "click"
step_action_label (StepAction.type q t) = "type"
step_action_label (StepAction.wait q) = "wait"
step_action_label (StepAction.assert q) = "assert"
step_action_label StepAction.checkpoint = "checkpoint"

unfoldable pub emit_progress : ℕ → ℕ → Message → Out → Out
emit_progress progress total message out = record {
  next_token = (out.next_token + 1) % 2 ^ 64;
  lines =
      out.lines
      ++ (record { token = out.next_token; progress = progress; total = total; message = message }
          ∷ []);
}

unfoldable pub new_state : List DurableStep → WorkflowState
new_state steps = record { steps = steps; current_step = 0; results = []; completed = false }

-- What `handle_ax_workflow_step` does to the state that it finds: the answer, the state after it,
-- and the notification that it emits.
unfoldable pub record_step : DurableStep → WorkflowState → Out → Reply × WorkflowState × Out
unfolding step_action_label emit_progress
record_step step state out =
    let total = length state.steps in
    let out' =
      emit_progress ((state.current_step % 2 ^ 32 + 1) % 2 ^ 32) (total % 2 ^ 32)
        (inl "Step "
          ∷ inr (state.current_step + 1)
          ∷ inl "/"
          ∷ inr (total % 2 ^ 32)
          ∷ inl ": "
          ∷ inl step.id
          ∷ [])
        out in
    let completed = leb total (state.current_step + 1) in
    (
      Reply.stepped (some step.id) state.current_step completed
          (some (step_action_label step.action))
          (format ("Recorded workflow step '" ∷ step.id ∷ "'" ∷ [])),
      record state {
        results = state.results ++ (WorkflowResult.success (state.current_step + 1) 0 ∷ []);
        current_step = state.current_step + 1;
        completed = (if completed then true else state.completed);
      },
      out',
    )

unfoldable pub advance : WorkflowState → Out → Reply × WorkflowState × Out
advance state out =
    if state.completed
    then (Reply.stepped none state.current_step true none "Workflow already completed", state, out)
    else elim (get_elem? state.steps state.current_step) [
      | none ↦ (
        Reply.stepped none state.current_step true none "All steps complete",
        record state { completed = true },
        out,
      )
      | some step ↦ record_step step state out
    ]

abbrev pub not_found : String → String
not_found name = format ("Workflow '" ∷ name ∷ "' not found — call ax_workflow_create first" ∷ [])

module _ (j : Json) where
  open j use {Value}

  -- `handle_ax_workflow_create` once the arguments are read.
  unfoldable pub store_plan : String → List DurableStep → Workflows → ToolResult × Workflows
  store_plan name steps w =
      if w.poisoned
      then (err "Workflow mutex poisoned", w)
      else elim (TextMaps.lookup name w.plans) [
        | some old ↦
            (err (format ("Workflow '" ∷ name ∷ "' already exists — choose a unique name" ∷ [])), w)
        | none ↦ (
          ok (Reply.created name (length steps)),
          record w { plans = TextMaps.insert name (new_state steps) w.plans },
        )
      ]

  -- The `steps` argument, if it is given.
  unfoldable pub steps_argument : Value → Result (List DurableStep) String
  steps_argument args = elim (get j args "steps") [
    | some v ↦ parse_workflow_steps j v
    | none ↦ ok []
  ]

  unfoldable pub handle_ax_workflow_create : Value → Workflows → ToolResult × Workflows
  handle_ax_workflow_create args w = elim (reject_unknown_fields j args ("name" ∷ "steps" ∷ [])) [
    | err e ↦ (err e, w)
    | ok _ ↦ elim (get_str j args "name") [
      | none ↦ (err "Missing required field: name", w)
      | some name ↦ elim (steps_argument args) [
        | err e ↦ (err e, w)
        | ok steps ↦ store_plan name steps w
      ]
    ]
  ]

  -- `handle_ax_workflow_step` once the name is read.
  unfoldable pub step_plan : String → Workflows → Out → ToolResult × Workflows × Out
  step_plan name w out =
      if w.poisoned
      then (err "Workflow mutex poisoned", w, out)
      else elim (TextMaps.lookup name w.plans) [
        | none ↦ (err (not_found name), w, out)
        | some state ↦
            let (reply, state', out') = advance state out in
            (ok reply, record w { plans = TextMaps.insert name state' w.plans }, out')
      ]

  unfoldable pub handle_ax_workflow_step : Value → Workflows → Out → ToolResult × Workflows × Out
  handle_ax_workflow_step args w out = elim (reject_unknown_fields j args ("name" ∷ [])) [
    | err e ↦ (err e, w, out)
    | ok _ ↦ elim (get_str j args "name") [
      | none ↦ (err "Missing required field: name", w, out)
      | some name ↦ step_plan name w out
    ]
  ]

  unfoldable pub handle_ax_workflow_status : Value → Workflows → ToolResult
  handle_ax_workflow_status args w = elim (reject_unknown_fields j args ("name" ∷ [])) [
    | err e ↦ err e
    | ok _ ↦ elim (get_str j args "name") [
      | none ↦ err "Missing required field: name"
      | some name ↦
          if w.poisoned
          then err "Workflow mutex poisoned"
          else elim (TextMaps.lookup name w.plans) [
            | none ↦ err (not_found name)
            | some state ↦ ok (
                Reply.status name state.current_step (length state.steps) state.completed
                  (length state.results))
          ]
    ]
  ]
