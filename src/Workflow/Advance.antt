-- ===== src/Workflow/Advance.antt =====
-- src/mcp/tools_innovation/workflow.rs, `handle_ax_workflow_step`: what a plan goes through as it is
-- advanced, from its creation on.
use axterminator.Prelude.{
  ℕ, zero, suc, ◌+◌, ◌≤◌, ◌<◌, ◌≡◌, refl, sym, ap, ap₂, ◌∙◌, String, Bool, true, false, ◌&&◌,
  Option, none, some, List, [], ◌∷◌, ◌++◌, map, length, get_elem?, take, leb, ltb, min, arith,
  length-append,
}
use mathlib.Core.List.{append-nil}
use axterminator.Durable.{DurableStep, WorkflowResult}
use axterminator.Workflow.{
  WorkflowState, Out, Reply, new_state, advance, record_step, emit_progress,
}

-- The identifier of the step that a reply names.
abbrev pub named : Reply → List String
named (Reply.stepped (some id) i completed action message) = id ∷ []
named _ = []

-- The results of a plan that has recorded its first steps.
abbrev pub recorded : ℕ → List WorkflowResult
recorded zero = []
recorded (suc k) = recorded k ++ (WorkflowResult.success (k + 1) 0 ∷ [])

-- A plan after a number of advances, with the identifiers that the replies named and the output.
abbrev pub advances : ℕ → WorkflowState → Out → List String × WorkflowState × Out
advances zero state out = ([], state, out)
advances (suc k) state out =
    let (ids, state', out') = advances k state out in
    let (reply, state'', out'') = advance state' out' in (ids ++ named reply, state'', out'')

module _ {ℓ} {A : Type ℓ} where
  take-suc-some :
      (k : ℕ) (xs : List A) (x : A)
      → get_elem? xs k ≡ some x
      → (take (suc k) xs ≡ take k xs ++ (x ∷ [])) × (k < length xs)
  take-suc-some k [] x h = absurd (ground arith)
  take-suc-some zero (y ∷ xs) x h = ground arith
  take-suc-some (suc k) (y ∷ xs) x h =
      let (e, l) = take-suc-some k xs x h in (ap (◌∷◌ y) e, omega (arith, l))

  get_elem?-length : (xs : List A) → get_elem? xs (length xs) ≡ none
  get_elem?-length [] = refl
  get_elem?-length (x ∷ xs) = get_elem?-length xs

  get_elem?-eq-none : (k : ℕ) (xs : List A) → get_elem? xs k ≡ none → length xs ≤ k
  get_elem?-eq-none k [] h = omega arith
  get_elem?-eq-none zero (x ∷ xs) h = absurd (ground arith)
  get_elem?-eq-none (suc k) (x ∷ xs) h = omega (arith, get_elem?-eq-none k xs h)

  take_all : (k : ℕ) (xs : List A) → length xs ≤ k → take k xs ≡ xs
  take_all zero [] h = refl
  take_all zero (x ∷ xs) h = absurd (omega arith)
  take_all (suc k) [] h = refl
  take_all (suc k) (x ∷ xs) h = ap (◌∷◌ x) (take_all k xs (omega arith))

-- A plan with the given steps after `k` advances, which have emitted `n` lines.
pub record Advanced (steps : List DurableStep) (k : ℕ) (ids : List String) (s : WorkflowState)
    (n : ℕ) : Type 0 where
  pub steps_kept : s.steps ≡ steps
  pub position : s.current_step ≡ min k (length steps)
  pub results_kept : s.results ≡ recorded (min k (length steps))
  pub done : s.completed ≡ (ltb 0 k && leb (length steps) k)
  pub order : ids ≡ take k (map (λ d. d.id) steps)
  pub emitted : n ≡ min k (length steps)

abbrev ids_of : List DurableStep → List String
ids_of steps = map (λ (d : DurableStep). d.id) steps

length-ids_of : (steps : List DurableStep) → length (ids_of steps) ≡ length steps
length-ids_of [] = refl
length-ids_of (d ∷ ds) = ap suc (length-ids_of ds)

get_elem?-ids_of :
    (k : ℕ) (steps : List DurableStep) (d : DurableStep)
    → get_elem? steps k ≡ some d
    → get_elem? (ids_of steps) k ≡ some d.id
get_elem?-ids_of k [] d h = absurd (ground arith)
get_elem?-ids_of zero (x ∷ xs) d h = ground arith
get_elem?-ids_of (suc k) (x ∷ xs) d h = get_elem?-ids_of k xs d h

recorded_cong : (m n : ℕ) → m ≡ n → recorded m ≡ recorded n
recorded_cong m n e = ap recorded e

recorded-suc : (k : ℕ) → recorded (k + 1) ≡ recorded k ++ (WorkflowResult.success (k + 1) 0 ∷ [])
recorded-suc k = recorded_cong (k + 1) (suc k) (omega arith)

take_past :
    (k : ℕ) (steps : List DurableStep)
    → length steps ≤ k
    → take (suc k) (ids_of steps) ≡ take k (ids_of steps)
take_past k steps h =
    take_all (suc k) (ids_of steps) (omega (arith, length-ids_of steps))
    ∙ sym (take_all k (ids_of steps) (omega (arith, length-ids_of steps)))

-- What one more advance does to the state, the reply and the lines, by the three cases of the code.
record_step-Advanced :
    (steps : List DurableStep) (k : ℕ) (ids : List String) (s : WorkflowState) (out : Out)
    (d : DurableStep)
    → Advanced steps k ids s (length out.lines)
    → s.completed ≡ false
    → get_elem? s.steps s.current_step ≡ some d
    → let (reply, s', out') = record_step d s out in
      Advanced steps (suc k) (ids ++ named reply) s' (length out'.lines)
unfolding record_step emit_progress
record_step-Advanced steps k ids s out d a h g =
    let at : get_elem? steps (min k (length steps)) ≡ some d =
      ground (arith, a.steps_kept, a.position, g) in
    let (e, l) = take-suc-some (min k (length steps)) steps d at in
    let m : min k (length steps) ≡ k = omega (arith, l) in
    let (e', l') =
      take-suc-some k (ids_of steps) d.id (get_elem?-ids_of k steps d (rw (sym m) at)) in
    record {
      steps_kept = a.steps_kept;
      position = omega (arith, a.position, l);
      results_kept =
          ap₂ (λ x n. x ++ (WorkflowResult.success (n + 1) 0 ∷ [])) a.results_kept a.position
          ∙ sym (recorded-suc (min k (length steps)))
          ∙ recorded_cong (min k (length steps) + 1) (min (suc k) (length steps))
              (omega (arith, l));
      done = ground (arith, a.steps_kept, a.position, l, h);
      order = ap (λ x. x ++ (d.id ∷ [])) a.order ∙ sym e';
      emitted = omega (arith, a.emitted, l, length-append out.lines);
    }

advance-Advanced :
    (steps : List DurableStep) (k : ℕ) (ids : List String) (s : WorkflowState) (out : Out)
    → Advanced steps k ids s (length out.lines)
    → let (reply, s', out') = advance s out in
      Advanced steps (suc k) (ids ++ named reply) s' (length out'.lines)
unfolding advance
advance-Advanced steps k ids s out a =
    split s.completed (get_elem? s.steps s.current_step) refl refl
  where
    split :
        (b : Bool) (o : Option DurableStep)
        → s.completed ≡ b
        → get_elem? s.steps s.current_step ≡ o
        → let (reply, s', out') = advance s out in
          Advanced steps (suc k) (ids ++ named reply) s' (length out'.lines)
    split true o h g =
        let past : length steps ≤ k = ground (arith, a.done, h) in
        rw (h, advance)
          (record {
            steps_kept = a.steps_kept;
            position = omega (arith, a.position, past);
            results_kept =
                a.results_kept
                ∙ recorded_cong (min k (length steps)) (min (suc k) (length steps))
                    (omega (arith, past));
            done = ground (arith, past, h);
            order = append-nil ids ∙ a.order ∙ sym (take_past k steps past);
            emitted = omega (arith, a.emitted, past);
          })
    split false none h g =
        let past : length steps ≤ min k (length steps) =
          get_elem?-eq-none _ steps (ground (arith, a.steps_kept, a.position, g)) in
        rw (h, g, advance)
          (record {
            steps_kept = a.steps_kept;
            position = omega (arith, a.position, past);
            results_kept =
                a.results_kept
                ∙ recorded_cong (min k (length steps)) (min (suc k) (length steps))
                    (omega (arith, past));
            done = ground (arith, past);
            order = append-nil ids ∙ a.order ∙ sym (take_past k steps (omega (arith, past)));
            emitted = omega (arith, a.emitted, past);
          })
    split false (some d) h g = rw (h, g, advance) (record_step-Advanced steps k ids s out d a h g)

-- After `k` advances of a plan created with `n` steps, with the output of the advances started empty:
-- the steps are those given, the position and the number of lines emitted are the smaller of `k` and
-- `n`, the results are those of so many successes in order, the plan is completed exactly when
-- it has been advanced and `k` is at least `n`, and the steps that the replies named are
-- the first `k`, each once and in order.
pub advances-Advanced :
    (steps : List DurableStep) (token k : ℕ)
    → let (ids, s, out) =
        advances k (new_state steps) (record { next_token = token; lines = [] }) in
      Advanced steps k ids s (length out.lines)
unfolding new_state
advances-Advanced steps token zero = record {
  steps_kept = refl;
  position = omega arith;
  results_kept = recorded_cong 0 (min 0 (length steps)) (omega arith);
  done = refl;
  order = refl;
  emitted = omega arith;
}
advances-Advanced steps token (suc k) =
    let (ids, s, out) = advances k (new_state steps) (record { next_token = token; lines = [] }) in
    advance-Advanced steps k ids s out (advances-Advanced steps token k)
