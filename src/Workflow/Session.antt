-- ===== src/Workflow/Session.antt =====
-- src/mcp/tools_innovation/workflow.rs: the plans through a whole session, as the tools are called in
-- any order with any arguments.
use axterminator.Prelude.{
  ℕ, zero, suc, ◌+◌, ◌≤◌, ◌<◌, ◌≡◌, refl, sym, ap, subst, ◌∙◌, String, Bool, true, false, Option,
  none, some, List, [], ◌∷◌, ◌++◌, ok, err, length, length-append, get_elem?, arith, str_eq,
  str_eq_iff, Bool-cases, inl, inr,
}
use axterminator.Prelude.TextMaps
use axterminator.Json.{Json, get_str}
use axterminator.Durable.{DurableStep, WorkflowResult}
use axterminator.Workflow.{
  WorkflowState, Workflows, Out, Reply, ToolResult, new_state, advance, record_step,
  handle_ax_workflow_create, handle_ax_workflow_step, handle_ax_workflow_status,
}
use axterminator.Workflow.Advance.{recorded}
use axterminator.Workflow.Store.{
  IsValid, Stepped, Created, SameElsewhere, handle_ax_workflow_create-Created,
  handle_ax_workflow_step-Stepped,
}

get_elem?-lt {ℓ} :
    {A : Type ℓ} (k : ℕ) (xs : List A) (x : A) → get_elem? xs k ≡ some x → k < length xs
get_elem?-lt k [] x h = absurd (ground arith)
get_elem?-lt zero (y ∷ xs) x h = omega arith
get_elem?-lt (suc k) (y ∷ xs) x h = omega (arith, get_elem?-lt k xs x h)

get_elem?-ge {ℓ} : {A : Type ℓ} (k : ℕ) (xs : List A) → get_elem? xs k ≡ none → length xs ≤ k
get_elem?-ge k [] h = omega arith
get_elem?-ge zero (y ∷ xs) h = absurd (ground arith)
get_elem?-ge (suc k) (y ∷ xs) h = omega (arith, get_elem?-ge k xs h)

length-recorded : (k : ℕ) → length (recorded k) ≡ k
length-recorded zero = refl
length-recorded (suc k) = omega (arith, length-recorded k, length-append (recorded k))

new_state-IsValid : (steps : List DurableStep) → IsValid (new_state steps)
unfolding new_state
new_state-IsValid steps = record {
  position = omega arith;
  results_kept = refl;
  done = λ e. ground arith;
}

record_step-IsValid :
    (d : DurableStep) (s : WorkflowState) (out : Out)
    → IsValid s
    → s.completed ≡ false
    → s.current_step < length s.steps
    → IsValid (record_step d s out).1
unfolding record_step
record_step-IsValid d s out v h l = record {
  position = omega arith;
  results_kept =
      ap (λ x. x ++ (WorkflowResult.success (s.current_step + 1) 0 ∷ [])) v.results_kept
      ∙ ap recorded {x = suc s.current_step} {y = s.current_step + 1} (omega arith);
  done = λ e. ground (arith, h, l);
}

advance-IsValid : (s : WorkflowState) (out : Out) → IsValid s → IsValid (advance s out).1
unfolding advance
advance-IsValid s out v = split s.completed (get_elem? s.steps s.current_step) refl refl
  where
    along :
        (q : Reply × WorkflowState × Out)
        → advance s out ≡ q
        → IsValid q.1
        → IsValid (advance s out).1
    along q e i = subst (λ (q : Reply × WorkflowState × Out). IsValid q.1) (sym e) i

    split :
        (b : Bool) (o : Option DurableStep)
        → s.completed ≡ b
        → get_elem? s.steps s.current_step ≡ o
        → IsValid (advance s out).1
    split true o h g =
        along (Reply.stepped none s.current_step true none "Workflow already completed", s, out)
          (ground (arith, h)) v
    split false none h g =
        along
          (
            Reply.stepped none s.current_step true none "All steps complete",
            record s { completed = true },
            out,
          )
          (ground (arith, h, g))
          (record {
            position = v.position;
            results_kept = v.results_kept;
            done = λ e. omega (arith, v.position, get_elem?-ge s.current_step s.steps g);
          })
    split false (some d) h g =
        along (record_step d s out) (ground (arith, h, g))
          (record_step-IsValid d s out v h (get_elem?-lt s.current_step s.steps d g))

module _ (j : Json) where
  open j use {Value}

  -- The plans and the output that a session may come to: it starts with no plans, the two tools that
  -- change them are called with any arguments, and a thread may panic while it holds the lock.
  pub data Reached : Workflows → Out → Type 0 where
    start : (out : Out) → Reached (record { poisoned = false; plans = [] }) out
    created :
        {w : Workflows} {out : Out} (args : Value)
        → Reached w out
        → Reached (handle_ax_workflow_create j args w).1 out
    stepped :
        {w : Workflows} {out : Out} (args : Value)
        → Reached w out
        → Reached (handle_ax_workflow_step j args w out).1 (handle_ax_workflow_step j args w out).2
    panicked :
        {w : Workflows} {out : Out} → Reached w out → Reached (record w { poisoned = true }) out

  abbrev AllValid : Workflows → Type 0
  AllValid w =
      (name : String) (s : WorkflowState) → TextMaps.lookup name w.plans ≡ some s → IsValid s

  -- One plan is replaced by a valid one.
  AllValid-replace :
      (name : String) (s : WorkflowState) (w w' : Workflows)
      → AllValid w
      → IsValid s
      → TextMaps.lookup name w'.plans ≡ some s
      → SameElsewhere name w w'
      → AllValid w'
  AllValid-replace name s w w' v i at same other t h = elim (Bool-cases (str_eq other name)) [
    | inl e ↦ subst IsValid (same_plan ((str_eq_iff other name).0 e)) i
    | inr e ↦ v other t (sym (same other (λ p. ground (arith, e, p, str_eq_iff other name))) ∙ h)
  ]
    where
      same_plan : other ≡ name → s ≡ t
      same_plan p = ground (arith, at, h, p)

  create-AllValid :
      (args : Value) (w w' : Workflows) (r : ToolResult)
      → AllValid w
      → Created j args w r w'
      → AllValid w'
  create-AllValid args w w' (ok reply) v (name, steps, _, _, _, _, _, _, at, same) =
      AllValid-replace name (new_state steps) w w' v (new_state-IsValid steps) at same
  create-AllValid args w w' (err e) v c = subst AllValid (sym c.0) v

  step-AllValid :
      (args : Value) (w w' : Workflows) (out out' : Out) (r : ToolResult)
      → AllValid w
      → Stepped j args w out r w' out'
      → AllValid w'
  step-AllValid args w w' out out' (ok reply) v (name, s, _, _, found, _, _, at, same) =
      AllValid-replace name (advance s out).1 w w' v (advance-IsValid s out (v name s found)) at
        same
  step-AllValid args w w' out out' (err e) v c = subst AllValid (sym c.0) v

  Reached-AllValid : {w : Workflows} {out : Out} → Reached w out → AllValid w
  unfolding TextMaps.lookup
  Reached-AllValid (start out) = λ name s h. absurd (ground arith)
  Reached-AllValid (created {w = v} args r) =
      create-AllValid args v _ _ (Reached-AllValid r) (handle_ax_workflow_create-Created j args v)
  Reached-AllValid (stepped {w = v} {out = o} args r) =
      step-AllValid args v _ o _ _ (Reached-AllValid r) (handle_ax_workflow_step-Stepped j args v o)
  Reached-AllValid (panicked r) = Reached-AllValid r

  -- What `ax_workflow_status` reports of a plan at any point of a session: the position is at most
  -- the number of steps, there are as many results as steps passed, and a plan is
  -- reported completed only if its position is the number of steps.
  pub Reached-status :
      {w : Workflows} {out : Out} (args : Value) (name : String) (current_step total count : ℕ)
      (completed : Bool)
      → Reached w out
      → handle_ax_workflow_status j args w
        ≡ ok (Reply.status name current_step total completed count)
      → (current_step ≤ total) × (count ≡ current_step) × (completed ≡ true → current_step ≡ total)
  unfolding handle_ax_workflow_status
  Reached-status {w = w} args name current_step total count completed r h =
      split (get_str j args "name") refl
    where
      plan :
          (s : WorkflowState) (n : String)
          → TextMaps.lookup n w.plans ≡ some s
          → Reply.status n s.current_step (length s.steps) s.completed (length s.results)
            ≡ Reply.status name current_step total completed count
          → (current_step ≤ total)
            × (count ≡ current_step)
            × (completed ≡ true → current_step ≡ total)
      plan s n f e =
          let v = Reached-AllValid r n s f in
          let n_results : length s.results ≡ s.current_step =
            ap length v.results_kept ∙ length-recorded s.current_step in
          ground (arith, e, v.position, n_results, v.done)

      found :
          (o : Option WorkflowState) (n : String)
          → get_str j args "name" ≡ some n
          → TextMaps.lookup n w.plans ≡ o
          → (current_step ≤ total)
            × (count ≡ current_step)
            × (completed ≡ true → current_step ≡ total)
      found none n g f = absurd (ground (arith, h, g, f))
      found (some s) n g f = plan s n f (ground (arith, h, g, f))

      split :
          (o : Option String)
          → get_str j args "name" ≡ o
          → (current_step ≤ total)
            × (count ≡ current_step)
            × (completed ≡ true → current_step ≡ total)
      split none g = absurd (ground (arith, h, g))
      split (some n) g = found (TextMaps.lookup n w.plans) n g refl
