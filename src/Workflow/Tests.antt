-- ===== src/Workflow/Tests.antt =====
-- src/mcp/tools_innovation/workflow.rs at concrete inputs: a plan of two clicks.
use axterminator.Prelude.{
  ℕ, ◌≡◌, ◌≤◌, refl, String, true, false, Option, none, some, List, [], ◌∷◌, ok, length,
}
use axterminator.Prelude.TextMaps
use axterminator.Json.{Json, get, get_str}
use axterminator.Durable.{DurableStep, StepAction}
use axterminator.Workflow.{
  Workflows, Out, Reply, new_state, advance, record_step, emit_progress, step_action_label,
  store_plan, steps_argument, handle_ax_workflow_create, step_plan, handle_ax_workflow_step,
  handle_ax_workflow_status,
}
use axterminator.Workflow.Parse.{
  reject_keys, reject_unknown_fields, required_workflow_step_string,
  parse_optional_workflow_u64_field, parse_optional_workflow_u32_field, parse_action,
  parse_single_workflow_step, parse_steps, parse_workflow_steps,
}
use axterminator.Workflow.Read.{AreSteps, parse_workflow_steps-AreSteps}
use axterminator.Workflow.Advance.{Advanced, advances, advances-Advanced}
use axterminator.Workflow.Store.{
  Stepped, Created, handle_ax_workflow_step-Stepped, handle_ax_workflow_create-Created,
}
use axterminator.Workflow.Session.{start, created, stepped, Reached-status}

-- The JSON values of the tests.
data Doc : Type 0 where
  text : String → Doc
  number : ℕ → Doc
  step_doc plan_doc create_doc name_doc : Doc

abbrev doc_object : Doc → Option (List (String × Doc))
doc_object step_doc = some (
    ("id", text "a")
    ∷ ("action", text "click")
    ∷ ("target", text "Login")
    ∷ ("max_retries", number 3)
    ∷ [])
doc_object create_doc = some (("name", text "w") ∷ ("steps", plan_doc) ∷ [])
doc_object name_doc = some (("name", text "w") ∷ [])
doc_object _ = none

abbrev doc_str : Doc → Option String
doc_str (text s) = some s
doc_str _ = none

abbrev doc_array : Doc → Option (List Doc)
doc_array plan_doc = some (step_doc ∷ step_doc ∷ [])
doc_array _ = none

abbrev doc_number : Doc → Option (Option ℕ)
doc_number (number n) = some (some n)
doc_number _ = none

abbrev docs : Json
docs = record {
  Value = Doc;
  as_object = doc_object;
  as_str = doc_str;
  as_array = doc_array;
  as_bool = λ d. none;
  as_number = doc_number;
}

abbrev click : DurableStep
click = record { id = "a"; action = StepAction.click "Login"; max_retries = 3; timeout_ms = 5000 }

abbrev two_clicks : List DurableStep
two_clicks = click ∷ click ∷ []

abbrev quiet : Out
quiet = record { next_token = 7; lines = [] }

abbrev empty : Workflows
empty = record { poisoned = false; plans = [] }

abbrev one_plan : Workflows
one_plan = record { poisoned = false; plans = ("w", new_state two_clicks) ∷ [] }

parsed : parse_workflow_steps docs plan_doc ≡ ok two_clicks
unfolding get get_str reject_keys reject_unknown_fields required_workflow_step_string
    parse_optional_workflow_u64_field parse_optional_workflow_u32_field parse_action
    parse_single_workflow_step parse_steps parse_workflow_steps TextMaps.lookup
parsed = refl

parse_workflow_steps-AreSteps_example :
    (vs : List Doc) × (doc_array plan_doc ≡ some vs) × AreSteps docs vs two_clicks
parse_workflow_steps-AreSteps_example =
    parse_workflow_steps-AreSteps docs plan_doc two_clicks parsed

advances-Advanced_example :
    let (ids, s, out) = advances 2 (new_state two_clicks) quiet in
    Advanced two_clicks 2 ids s (length out.lines)
advances-Advanced_example = advances-Advanced two_clicks 7 2

handle_ax_workflow_step-Stepped_example :
    let (r, w', out') = handle_ax_workflow_step docs name_doc one_plan quiet in
    Stepped docs name_doc one_plan quiet r w' out'
handle_ax_workflow_step-Stepped_example =
    handle_ax_workflow_step-Stepped docs name_doc one_plan quiet

handle_ax_workflow_create-Created_example :
    let (r, w') = handle_ax_workflow_create docs create_doc empty in
    Created docs create_doc empty r w'
handle_ax_workflow_create-Created_example = handle_ax_workflow_create-Created docs create_doc empty

-- The plan is created, advanced once, and looked at.
abbrev session : Workflows × Out
session =
    let w = (handle_ax_workflow_create docs create_doc empty).1 in
    let (r, w', out') = handle_ax_workflow_step docs name_doc w quiet in (w', out')

status_after_one :
    handle_ax_workflow_status docs name_doc session.0 ≡ ok (Reply.status "w" 1 2 false 1)
unfolding get get_str reject_keys reject_unknown_fields required_workflow_step_string
    parse_optional_workflow_u64_field parse_optional_workflow_u32_field parse_action
    parse_single_workflow_step parse_steps parse_workflow_steps TextMaps.lookup TextMaps.insert
    steps_argument store_plan handle_ax_workflow_create step_plan handle_ax_workflow_step advance
    record_step emit_progress step_action_label handle_ax_workflow_status new_state
status_after_one = refl

Reached-status_example : (1 ≤ 2) × (◌≡◌ {A = ℕ} 1 1) × (false ≡ true → ◌≡◌ {A = ℕ} 1 2)
Reached-status_example =
    Reached-status docs name_doc "w" 1 2 1 false
      (stepped name_doc (created create_doc (start quiet))) status_after_one
