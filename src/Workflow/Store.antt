-- ===== src/Workflow/Store.antt =====
-- src/mcp/tools_innovation/workflow.rs: what the tools do to the plans of a session.
use axterminator.Prelude.{
  ◌≤◌, ◌≡◌, ◌≢◌, refl, sym, subst, String, Bool, true, false, Option, none, some, List, [], ◌∷◌,
  Result, ok, err, is_ok, length, format, arith, str_eq_iff,
}
use axterminator.Prelude.TextMaps
use axterminator.Json.{Json, get_str}
use axterminator.Durable.{DurableStep}
use axterminator.Workflow.Parse.{reject_unknown_fields}
use axterminator.Workflow.{
  WorkflowState, Workflows, Out, Reply, ToolResult, new_state, advance, store_plan, steps_argument,
  handle_ax_workflow_create, step_plan, handle_ax_workflow_step, not_found,
}
use axterminator.Workflow.Advance.{recorded}

-- A plan has recorded one success for each step up to its position, and a completed one has no
-- step left.
pub record IsValid (s : WorkflowState) : Type 0 where
  pub position : s.current_step ≤ length s.steps
  pub results_kept : s.results ≡ recorded s.current_step
  pub done : s.completed ≡ true → s.current_step ≡ length s.steps

-- The plans agree on every other name.
abbrev pub SameElsewhere : String → Workflows → Workflows → Type 0
SameElsewhere name w w' =
    (other : String) → other ≢ name → TextMaps.lookup other w'.plans ≡ TextMaps.lookup other w.plans

insert-SameElsewhere :
    (name : String) (s : WorkflowState) (w : Workflows)
    → SameElsewhere name w (record w { plans = TextMaps.insert name s w.plans })
insert-SameElsewhere name s w other ne =
    ground (arith, TextMaps.lookup-insert name other s w.plans, str_eq_iff name other)

lookup-insert_same :
    (name : String) (s : WorkflowState) (w : Workflows)
    → TextMaps.lookup name (TextMaps.insert name s w.plans) ≡ some s
lookup-insert_same name s w =
    ground (arith, TextMaps.lookup-insert name name s w.plans, str_eq_iff name name)

module _ (j : Json) where
  open j use {Value}

  -- What a call of `ax_workflow_step` may answer and do.
  abbrev pub Stepped : Value → Workflows → Out → ToolResult → Workflows → Out → Type 0
  Stepped args w out (ok reply) w' out' =
      (name : String) × (state : WorkflowState) × (get_str j args "name" ≡ some name)
      × (w.poisoned ≡ false)
      × (TextMaps.lookup name w.plans ≡ some state)
      × (reply ≡ (advance state out).0)
      × (out' ≡ (advance state out).2)
      × (TextMaps.lookup name w'.plans ≡ some (advance state out).1)
      × SameElsewhere name w w'
  Stepped args w out (err e) w' out' =
      (w' ≡ w)
      × (out' ≡ out)
      × ((name : String)
          → is_ok (reject_unknown_fields j args ("name" ∷ [])) ≡ true
          → get_str j args "name" ≡ some name
          → w.poisoned ≡ false
          → TextMaps.lookup name w.plans ≡ none)

  step_plan-Stepped :
      (args : Value) (name : String) (w : Workflows) (out : Out)
      → get_str j args "name" ≡ some name
      → let (r, w', out') = step_plan j name w out in Stepped args w out r w' out'
  unfolding step_plan
  step_plan-Stepped args name w out h = split w.poisoned (TextMaps.lookup name w.plans) refl refl
    where
      along :
          (q : ToolResult × Workflows × Out)
          → step_plan j name w out ≡ q
          → Stepped args w out q.0 q.1 q.2
          → let (r, w', out') = step_plan j name w out in Stepped args w out r w' out'
      along q e d = subst (λ q. Stepped args w out q.0 q.1 q.2) (sym e) d

      split :
          (b : Bool) (o : Option WorkflowState)
          → w.poisoned ≡ b
          → TextMaps.lookup name w.plans ≡ o
          → let (r, w', out') = step_plan j name w out in Stepped args w out r w' out'
      split true o p e =
          along (err "Workflow mutex poisoned", w, out) (ground arith)
            (refl, refl, λ n q g f. ground arith)
      split false none p e =
          along (err (not_found name), w, out) (ground arith)
            (refl, refl, λ n q g f. ground (arith, h, e, g))
      split false (some s) p e =
          along
            (
              ok (advance s out).0,
              record w { plans = TextMaps.insert name (advance s out).1 w.plans },
              (advance s out).2,
            )
            (ground arith)
            (
              name,
              s,
              h,
              p,
              e,
              refl,
              refl,
              lookup-insert_same name _ w,
              insert-SameElsewhere name _ w,
            )

  -- A call of `ax_workflow_step` that answers has found the named plan, has advanced it and no other
  -- plan, and answers and emits what the advance does. One that refuses changes and emits nothing,
  -- and refuses only if the arguments have an unknown field or no name, the lock is
  -- poisoned, or there is no plan of that name.
  pub handle_ax_workflow_step-Stepped :
      (args : Value) (w : Workflows) (out : Out)
      → let (r, w', out') = handle_ax_workflow_step j args w out in Stepped args w out r w' out'
  unfolding handle_ax_workflow_step
  handle_ax_workflow_step-Stepped args w out =
      split (reject_unknown_fields j args ("name" ∷ [])) (get_str j args "name") refl refl
    where
      split :
          (x : Result (Unit {0}) String) (y : Option String)
          → reject_unknown_fields j args ("name" ∷ []) ≡ x
          → get_str j args "name" ≡ y
          → let (r, w', out') = handle_ax_workflow_step j args w out in Stepped args w out r w' out'
      split (err e) y h k =
          rw (h, handle_ax_workflow_step) (refl, refl, λ n q. absurd (ground (arith, q, h)))
      split (ok u) none h k =
          rw (h, k, handle_ax_workflow_step) (refl, refl, λ n q g. absurd (ground (arith, g, k)))
      split (ok u) (some name) h k =
          rw (h, k, handle_ax_workflow_step) (step_plan-Stepped args name w out k)

  -- What a call of `ax_workflow_create` may answer and do.
  abbrev pub Created : Value → Workflows → ToolResult → Workflows → Type 0
  Created args w (ok reply) w' =
      (name : String) × (steps : List DurableStep) × (is_ok
          (reject_unknown_fields j args ("name" ∷ "steps" ∷ []))
        ≡ true)
      × (get_str j args "name" ≡ some name)
      × (steps_argument j args ≡ ok steps)
      × (w.poisoned ≡ false)
      × (TextMaps.lookup name w.plans ≡ none)
      × (reply ≡ Reply.created name (length steps))
      × (TextMaps.lookup name w'.plans ≡ some (new_state steps))
      × SameElsewhere name w w'
  Created args w (err e) w' =
      (w' ≡ w)
      × ((name : String) (steps : List DurableStep)
          → is_ok (reject_unknown_fields j args ("name" ∷ "steps" ∷ [])) ≡ true
          → get_str j args "name" ≡ some name
          → steps_argument j args ≡ ok steps
          → w.poisoned ≡ false
          → TextMaps.lookup name w.plans ≢ none)

  -- A call of `ax_workflow_create` that answers has read arguments without unknown fields, a name that
  -- no plan had, and steps; it answers with the name and the number of steps, and stores a new plan of
  -- these steps under the name, next to the plans there were. One that refuses changes nothing, and
  -- refuses only if the arguments have an unknown field, no name or no readable steps, the lock is
  -- poisoned, or there is a plan of that name.
  pub handle_ax_workflow_create-Created :
      (args : Value) (w : Workflows)
      → let (r, w') = handle_ax_workflow_create j args w in Created args w r w'
  unfolding handle_ax_workflow_create store_plan
  handle_ax_workflow_create-Created args w =
      split (reject_unknown_fields j args ("name" ∷ "steps" ∷ [])) (get_str j args "name")
        (steps_argument j args) refl refl refl
    where
      along :
          (q : ToolResult × Workflows)
          → handle_ax_workflow_create j args w ≡ q
          → Created args w q.0 q.1
          → let (r, w') = handle_ax_workflow_create j args w in Created args w r w'
      along q e d = subst (λ q. Created args w q.0 q.1) (sym e) d

      split :
          (x : Result (Unit {0}) String) (y : Option String) (z : Result (List DurableStep) String)
          → reject_unknown_fields j args ("name" ∷ "steps" ∷ []) ≡ x
          → get_str j args "name" ≡ y
          → steps_argument j args ≡ z
          → let (r, w') = handle_ax_workflow_create j args w in Created args w r w'
      split (err e) y z h k l =
          along (err e, w) (ground (arith, h)) (refl, λ n t q. absurd (ground (arith, q, h)))
      split (ok u) none z h k l =
          along (err "Missing required field: name", w) (ground (arith, h, k))
            (refl, λ n t q g. absurd (ground (arith, g, k)))
      split (ok u) (some name) (err e) h k l =
          along (err e, w) (ground (arith, h, k, l))
            (refl, λ n t q g i. absurd (ground (arith, i, l)))
      split (ok u) (some name) (ok steps) h k l =
          found w.poisoned (TextMaps.lookup name w.plans) refl refl
        where
          found :
              (b : Bool) (o : Option WorkflowState)
              → w.poisoned ≡ b
              → TextMaps.lookup name w.plans ≡ o
              → let (r, w') = handle_ax_workflow_create j args w in Created args w r w'
          found true o p q =
              along (err "Workflow mutex poisoned", w) (ground (arith, h, k, l, p))
                (refl, λ n t e g i f. absurd (ground (arith, f, p)))
          found false (some old) p q =
              along
                (
                  err (
                      format
                        ("Workflow '" ∷ name ∷ "' already exists — choose a unique name" ∷ [])),
                  w,
                )
                (ground (arith, h, k, l, p, q)) (refl, λ n t e g i f. ground (arith, k, g, q))
          found false none p q =
              along
                (
                  ok (Reply.created name (length steps)),
                  record w { plans = TextMaps.insert name (new_state steps) w.plans },
                )
                (ground (arith, h, k, l, p, q))
                (
                  name,
                  steps,
                  rw h refl,
                  k,
                  l,
                  p,
                  q,
                  refl,
                  lookup-insert_same name _ w,
                  insert-SameElsewhere name _ w,
                )
