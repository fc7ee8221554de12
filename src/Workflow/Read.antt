-- ===== src/Workflow/Read.antt =====
-- src/mcp/tools_innovation/workflow.rs, `parse_workflow_steps`: what the steps read from JSON are.
use axterminator.Prelude.{
  ℕ, ◌≡◌, ◌^◌, ◌<◌, refl, ap, subst, ◌∙◌, ◌⊎◌, inl, inr, String, Option, none, some, List, [], ◌∷◌,
  Result, ok, err, ◌>>=◌, arith, str_eq_iff,
}
use axterminator.Json.{Json, get, get_str}
use axterminator.Durable.{DurableStep, StepAction, with_config}
use axterminator.Workflow.Parse.{
  reject_unknown_fields, required_workflow_step_string, parse_optional_workflow_u64_field,
  parse_optional_workflow_u32_field, parse_action, parse_single_workflow_step, parse_steps,
  parse_workflow_steps, step_fields, field_or,
}

-- The name of an action, and the fields that it is read from.
abbrev pub action_name : StepAction → String
action_name (StepAction.click q) = "click"
action_name (StepAction.type q t) = "type"
action_name (StepAction.wait q) = "wait"
action_name (StepAction.assert q) = "assert"
action_name StepAction.checkpoint = "checkpoint"

module _ (j : Json) where
  open j use {Value, as_array, as_number}

  abbrev pub HasFields : Value → StepAction → Type 0
  HasFields s (StepAction.click q) = get_str j s "target" ≡ some q
  HasFields s (StepAction.type q t) =
      (get_str j s "target" ≡ some q) × (get_str j s "text" ≡ some t)
  HasFields s (StepAction.wait q) = get_str j s "target" ≡ some q
  HasFields s (StepAction.assert q) = get_str j s "target" ≡ some q
  HasFields s StepAction.checkpoint = Unit

  -- A number read from an optional field.
  abbrev pub IsField : Value → String → ℕ → ℕ → Type 0
  IsField s field default n =
      ((get j s field ≡ none) × (n ≡ default))
      ⊎ ((v : Value) × (get j s field ≡ some v) × (as_number v ≡ some (some n)))

  -- The step that a JSON object spells.
  pub record IsStep (s : Value) (d : DurableStep) : Type 0 where
    pub id_field : get_str j s "id" ≡ some d.id
    pub action_field : get_str j s "action" ≡ some (action_name d.action)
    pub action_args : HasFields s d.action
    pub retries_field : IsField s "max_retries" 2 d.max_retries
    pub retries_bound : d.max_retries < 2 ^ 32
    pub timeout_field : IsField s "timeout_ms" 5000 d.timeout_ms

  abbrev pub AreSteps : List Value → List DurableStep → Type 0
  AreSteps [] [] = Unit
  AreSteps (v ∷ vs) (d ∷ ds) = IsStep v d × AreSteps vs ds
  AreSteps _ _ = ⊥

  required-get_str :
      (s : Value) (id field q : String)
      → required_workflow_step_string j s id field ≡ ok q
      → get_str j s field ≡ some q
  unfolding required_workflow_step_string
  required-get_str s id field q h = ground arith

  u64-IsField :
      (s : Value) (field : String) (default n : ℕ)
      → parse_optional_workflow_u64_field j s field default ≡ ok n
      → IsField s field default n
  unfolding parse_optional_workflow_u64_field
  u64-IsField s field default n h = split (get j s field) refl
    where
      split : (o : Option Value) → get j s field ≡ o → IsField s field default n
      split none e = inl (e, ground arith)
      split (some v) e = inr (v, e, ground arith)

  u32-IsField :
      (s : Value) (field : String) (default n : ℕ)
      → default < 2 ^ 32
      → parse_optional_workflow_u32_field j s field default ≡ ok n
      → IsField s field default n × (n < 2 ^ 32)
  unfolding parse_optional_workflow_u32_field
  u32-IsField s field default n l h = split (get j s field) refl
    where
      split : (o : Option Value) → get j s field ≡ o → IsField s field default n × (n < 2 ^ 32)
      split none e = (inl (e, ground arith), ground arith)
      split (some v) e = (inr (v, e, ground arith), ground arith)

  parse_action-HasFields :
      (s : Value) (id name : String) (a : StepAction)
      → parse_action j s id name ≡ ok a
      → (name ≡ action_name a) × HasFields s a
  unfolding parse_action
  parse_action-HasFields s id name (StepAction.click q) h = ground (
    arith,
    required-get_str s id "target" q,
    str_eq_iff name "checkpoint",
    str_eq_iff name "click",
    str_eq_iff name "type",
    str_eq_iff name "wait",
    str_eq_iff name "assert",
  )
  parse_action-HasFields s id name (StepAction.type q t) h = ground (
    arith,
    required-get_str s id "target" q,
    required-get_str s id "text" t,
    str_eq_iff name "checkpoint",
    str_eq_iff name "click",
    str_eq_iff name "type",
    str_eq_iff name "wait",
    str_eq_iff name "assert",
  )
  parse_action-HasFields s id name (StepAction.wait q) h = ground (
    arith,
    required-get_str s id "target" q,
    str_eq_iff name "checkpoint",
    str_eq_iff name "click",
    str_eq_iff name "type",
    str_eq_iff name "wait",
    str_eq_iff name "assert",
  )
  parse_action-HasFields s id name (StepAction.assert q) h = ground (
    arith,
    required-get_str s id "target" q,
    str_eq_iff name "checkpoint",
    str_eq_iff name "click",
    str_eq_iff name "type",
    str_eq_iff name "wait",
    str_eq_iff name "assert",
  )
  parse_action-HasFields s id name StepAction.checkpoint h = ground (
    arith,
    str_eq_iff name "checkpoint",
    str_eq_iff name "click",
    str_eq_iff name "type",
    str_eq_iff name "wait",
    str_eq_iff name "assert",
  )

  field_or-some : (o : Option String) (e x : String) → field_or j o e ≡ ok x → o ≡ some x
  field_or-some none e x h = absurd (ground arith)
  field_or-some (some s) e x h = ground arith

  -- The `?` operator gives a result only if what it is applied to does.
  bind_ok {ℓ} :
      {A B E : Type ℓ} (m : Result A E) (f : A → Result B E) (b : B)
      → (m >>= f) ≡ ok b
      → (a : A) × (m ≡ ok a) × (f a ≡ ok b)
  bind_ok (ok a) f b h = (a, refl, h)
  bind_ok (err e) f b h = absurd (ground arith)

  parse_single_workflow_step-IsStep :
      (s : Value) (d : DurableStep) → parse_single_workflow_step j s ≡ ok d → IsStep s d
  unfolding parse_single_workflow_step
  parse_single_workflow_step-IsStep s d h =
      let (_, _, h1) = bind_ok (reject_unknown_fields j s (step_fields j)) _ d h in
      let (id, e_id, h2) = bind_ok (field_or j (get_str j s "id") _) _ d h1 in
      let (name, e_name, h3) = bind_ok (field_or j (get_str j s "action") _) _ d h2 in
      let (n, e_n, h4) = bind_ok (parse_optional_workflow_u32_field j s "max_retries" 2) _ d h3 in
      let (t, e_t, h5) = bind_ok (parse_optional_workflow_u64_field j s "timeout_ms" 5000) _ d h4 in
      let (a, e_a, h6) = bind_ok (parse_action j s id name) _ d h5 in
      let (retries, bound) = u32-IsField s "max_retries" 2 n (ground arith) e_n in
      let (spelled, args) = parse_action-HasFields s id name a e_a in
      let read : IsStep s (with_config id a n t) = record {
        id_field = field_or-some _ _ id e_id;
        action_field = field_or-some _ _ name e_name ∙ ap some spelled;
        action_args = args;
        retries_field = retries;
        retries_bound = bound;
        timeout_field = u64-IsField s "timeout_ms" 5000 t e_t;
      } in
      subst (IsStep s) (ok-inj h6) read
    where
      ok-inj : {x y : DurableStep} → ◌≡◌ {A = Result DurableStep String} (ok x) (ok y) → x ≡ y
      ok-inj e = ground (arith, e)

  parse_steps-AreSteps :
      (vs : List Value) (ds : List DurableStep) → parse_steps j vs ≡ ok ds → AreSteps vs ds
  unfolding parse_steps
  parse_steps-AreSteps [] [] h = tt
  parse_steps-AreSteps [] (d ∷ ds) h = absurd (ground arith)
  parse_steps-AreSteps (v ∷ vs) [] h =
      let (d', _, h1) = bind_ok (parse_single_workflow_step j v) _ [] h in
      let (ds', _, h2) = bind_ok (parse_steps j vs) _ [] h1 in absurd (ground (arith, h2))
  parse_steps-AreSteps (v ∷ vs) (d ∷ ds) h =
      let (d', e, h1) = bind_ok (parse_single_workflow_step j v) _ (d ∷ ds) h in
      let (ds', e', h2) = bind_ok (parse_steps j vs) _ (d ∷ ds) h1 in
      (
        parse_single_workflow_step-IsStep v d (e ∙ ap ok (ground (arith, h2))),
        parse_steps-AreSteps vs ds (e' ∙ ap ok (ground (arith, h2))),
      )

  -- Steps that are parsed from a JSON value come from an array of as many objects, in the same order,
  -- and each is what its object spells: the identifier, the name of the action, the fields
  -- that the action needs, and the two numbers, 2 and 5000 where they are absent, the number of
  -- retries below 2^32.
  pub parse_workflow_steps-AreSteps :
      (v : Value) (ds : List DurableStep)
      → parse_workflow_steps j v ≡ ok ds
      → (vs : List Value) × (as_array v ≡ some vs) × AreSteps vs ds
  unfolding parse_workflow_steps
  parse_workflow_steps-AreSteps v ds h = split (as_array v) refl
    where
      split :
          (o : Option (List Value))
          → as_array v ≡ o
          → (vs : List Value) × (as_array v ≡ some vs) × AreSteps vs ds
      split none e = absurd (ground (arith, h, e))
      split (some vs) e = (vs, e, parse_steps-AreSteps vs ds (ground (arith, h, e)))
