-- ===== src/Workflow/Parse.antt =====
-- src/mcp/tools_innovation/workflow.rs: reading the steps of a workflow from JSON.
use axterminator.Prelude.{
  ℕ, ◌^◌, String, Option, none, some, List, [], ◌∷◌, Result, ok, err, ltb, if◌then◌else◌, str_eq,
  one_of, format, ◌>>=◌,
}
use axterminator.Json.{Json, get, get_str}
use axterminator.Durable.{DurableStep, StepAction, with_config}

module _ (j : Json) where
  open j use {Value, as_object, as_str, as_array, as_number}

  -- The loop over the keys of the object.
  unfoldable pub reject_keys : List String → List (String × Value) → Result (Unit {0}) String
  reject_keys allowed [] = ok tt
  reject_keys allowed ((key, v) ∷ fields) =
      if one_of key allowed
      then reject_keys allowed fields
      else err (format ("unknown field: " ∷ key ∷ []))

  unfoldable pub reject_unknown_fields : Value → List String → Result (Unit {0}) String
  reject_unknown_fields value allowed = elim (as_object value) [
    | none ↦ ok tt
    | some fields ↦ reject_keys allowed fields
  ]

  unfoldable pub required_workflow_step_string : Value → String → String → Result String String
  required_workflow_step_string value step_id field = elim (get_str j value field) [
    | some s ↦ ok s
    | none ↦ err (format ("Workflow step '" ∷ step_id ∷ "' missing string field: " ∷ field ∷ []))
  ]

  abbrev pub not_a_number : String → String
  not_a_number field = format ("Workflow field '" ∷ field ∷ "' must be a non-negative integer" ∷ [])

  unfoldable pub parse_optional_workflow_u64_field : Value → String → ℕ → Result ℕ String
  parse_optional_workflow_u64_field value field default = elim (get j value field) [
    | none ↦ ok default
    | some v ↦ elim (as_number v) [
      | none ↦ err (not_a_number field)
      | some n ↦ elim n [ none ↦ err (not_a_number field) | some raw ↦ ok raw ]
    ]
  ]

  unfoldable pub parse_optional_workflow_u32_field : Value → String → ℕ → Result ℕ String
  parse_optional_workflow_u32_field value field default = elim (get j value field) [
    | none ↦ ok default
    | some v ↦ elim (as_number v) [
      | none ↦ err (not_a_number field)
      | some n ↦ elim n [
        | none ↦ err (not_a_number field)
        | some raw ↦
            if ltb raw (2 ^ 32)
            then ok raw
            else err (format ("Workflow field '" ∷ field ∷ "' exceeds u32 range" ∷ []))
      ]
    ]
  ]

  -- The `match` on the action's name.
  unfoldable pub parse_action : Value → String → String → Result StepAction String
  parse_action s id action =
      if str_eq action "checkpoint"
      then ok StepAction.checkpoint
      else if str_eq action "click"
      then (do target ← required_workflow_step_string s id "target"; ok (StepAction.click target))
      else if str_eq action "type"
      then (do
        target ← required_workflow_step_string s id "target"
        text ← required_workflow_step_string s id "text"
        ok (StepAction.type target text))
      else if str_eq action "wait"
      then (do target ← required_workflow_step_string s id "target"; ok (StepAction.wait target))
      else if str_eq action "assert"
      then (do target ← required_workflow_step_string s id "target"; ok (StepAction.assert target))
      else err (format ("Workflow step '" ∷ id ∷ "' has unknown action: " ∷ action ∷ []))

  abbrev pub step_fields : List String
  step_fields = "id" ∷ "action" ∷ "target" ∷ "text" ∷ "max_retries" ∷ "timeout_ms" ∷ []

  -- A string field that is required, or the message that it is missing.
  abbrev pub field_or : Option String → String → Result String String
  field_or none e = err e
  field_or (some s) e = ok s

  unfoldable pub parse_single_workflow_step : Value → Result DurableStep String
  parse_single_workflow_step s = do
    _ ← reject_unknown_fields s step_fields
    id ← field_or (get_str j s "id") "Workflow step missing string field: id"
    action_str ←
        field_or (get_str j s "action")
          (format ("Workflow step '" ∷ id ∷ "' missing string field: action" ∷ []))
    max_retries ← parse_optional_workflow_u32_field s "max_retries" 2
    timeout_ms ← parse_optional_workflow_u64_field s "timeout_ms" 5000
    action ← parse_action s id action_str
    ok (with_config id action max_retries timeout_ms)

  -- `arr.iter().map(parse_single_workflow_step).collect()`: the first error, or all the steps.
  unfoldable pub parse_steps : List Value → Result (List DurableStep) String
  parse_steps [] = ok []
  parse_steps (v ∷ vs) = do
    step ← parse_single_workflow_step v
    steps ← parse_steps vs
    ok (step ∷ steps)

  unfoldable pub parse_workflow_steps : Value → Result (List DurableStep) String
  parse_workflow_steps v = elim (as_array v) [
    | none ↦ err "Field 'steps' must be an array"
    | some arr ↦ parse_steps arr
  ]
