-- ===== src/Durable/Checkpoints.antt =====
-- src/durable_steps.rs: what the saved checkpoints record, and recovery from the last of them.
use axterminator.Prelude.{
  map_option, ℕ, suc, ◌+◌, ◌^◌, ◌≤◌, ◌<◌, ◌≡◌, refl, sym, ap, subst, ◌∙◌, Bool, true, false, none,
  some, List, [], ◌∷◌, ◌++◌, arith, length, get_elem?, take, drop, get_last?, if◌then◌else◌,
  get_last?-map, Option-cases, inl, inr, take-add, take-take, get_last?-eq-none, length-take_le,
  get_elem?-take, length-drop,
}
use axterminator.Durable.{
  Backend, DurableStep, DurableRunner, Checkpoint, is_checkpoint, runner_new, reset, run,
  resume_from_checkpoint, last_checkpoint,
}
use axterminator.Durable.Passes.{indices, positions, Ran}
use axterminator.Durable.Run.{run-Ran}

-- The checkpoints saved are those of the checkpoint steps before the cursor, in order.
pub record IsValid (steps : List DurableStep) (r : DurableRunner) : Type 0 where
  pub cursor_in : r.current_step ≤ length steps
  pub exact : indices r.checkpoints ≡ positions 0 (take r.current_step steps)

positions-append :
    (i : ℕ) (xs ys : List DurableStep)
    → positions i (xs ++ ys) ≡ positions i xs ++ positions (i + length xs) ys
positions-append i [] ys = ap (λ n. positions n ys) (omega arith)
positions-append i (x ∷ xs) ys =
    front (is_checkpoint x.action) _ _ _ (positions-append (i + 1) xs ys ∙ shift)
  where
    shift :
        positions (i + 1) xs ++ positions (i + 1 + length xs) ys
        ≡ positions (i + 1) xs ++ positions (i + suc (length xs)) ys
    shift = ap (λ n. positions (i + 1) xs ++ positions n ys) (omega arith)

    front :
        (c : Bool) (all before rest : List ℕ)
        → all ≡ before ++ rest
        → (if c then i ∷ all else all) ≡ (if c then i ∷ before else before) ++ rest
    front true all before rest e = ap (◌∷◌ i) e
    front false all before rest e = e

-- The last position marked is that of a checkpoint step, and none follows it.
pub record LastMark (i : ℕ) (xs : List DurableStep) (p : ℕ) : Type 0 where
  pub offset : ℕ
  pub here : p ≡ i + offset
  pub inside : offset < length xs
  pub step : DurableStep
  pub found : get_elem? xs offset ≡ some step
  pub marks : is_checkpoint step.action ≡ true
  pub none_after : positions (i + suc offset) (drop (suc offset) xs) ≡ []
  pub same : positions i (take (suc offset) xs) ≡ positions i xs

-- The last of a list to which an item may have been put in front.
last_marked :
    (c : Bool) (i p : ℕ) (ps : List ℕ)
    → get_last? (if c then i ∷ ps else ps) ≡ some p
    → ((q : ℕ) → get_last? ps ≡ some q → p ≡ q) × (ps ≡ [] → (c ≡ true) × (p ≡ i))
last_marked true i p [] h = ((λ q e. ground arith), λ e. (refl, ground arith))
last_marked true i p (x ∷ ps) h = ((λ q e. cc), λ e. absurd (ground arith))
last_marked false i p ps h = ((λ q e. cc), λ e. absurd (none≢some (sym (ap get_last? e) ∙ h)))
  where
    none≢some : ¬ (none ≡ some p)
    none≢some e = ground arith

positions-LastMark :
    (i : ℕ) (xs : List DurableStep) (p : ℕ) → get_last? (positions i xs) ≡ some p → LastMark i xs p
positions-LastMark i [] p h = ground arith
positions-LastMark i (x ∷ xs) p h = elim (Option-cases (get_last? (positions (i + 1) xs))) [
  | inl e ↦ first (get_last?-eq-none _ e)
  | inr (q, e) ↦ later q e (positions-LastMark (i + 1) xs q e)
]
  where
    marked : Bool
    marked = is_checkpoint x.action

    first : positions (i + 1) xs ≡ [] → LastMark i (x ∷ xs) p
    first e =
        let (c, p_eq) = (last_marked marked i p _ h).1 e in
        record {
          offset = 0;
          here = omega arith;
          inside = omega arith;
          step = x;
          found = refl;
          marks = c;
          none_after = e;
          same = rw e;
        }

    later :
        (q : ℕ)
        → get_last? (positions (i + 1) xs) ≡ some q
        → LastMark (i + 1) xs q
        → LastMark i (x ∷ xs) p
    later q e y =
        let p_eq : p ≡ q = (last_marked marked i p _ h).0 q e in
        record {
          offset = suc y.offset;
          here = omega (arith, y.here);
          inside = omega (arith, y.inside);
          step = y.step;
          found = y.found;
          marks = y.marks;
          none_after = shift y.offset y.none_after;
          same = ap (λ l. if marked then i ∷ l else l) y.same;
        }
      where
        shift :
            (o : ℕ)
            → positions (i + 1 + suc o) (drop (suc o) xs) ≡ []
            → positions (i + suc (suc o)) (drop (suc o) xs) ≡ []
        shift o h = subst (λ n. positions n (drop (suc o) xs) ≡ []) (omega arith) h

-- The same for a list that starts at position 0.
record LastStep (xs : List DurableStep) (p : ℕ) : Type 0 where
  inside : p < length xs
  step : DurableStep
  found : get_elem? xs p ≡ some step
  marks : is_checkpoint step.action ≡ true
  none_after : positions (suc p) (drop (suc p) xs) ≡ []
  same : positions 0 (take (suc p) xs) ≡ positions 0 xs

positions-LastStep :
    (xs : List DurableStep) (p : ℕ) → get_last? (positions 0 xs) ≡ some p → LastStep xs p
positions-LastStep xs p h =
    let m : LastMark 0 xs p = positions-LastMark 0 xs p h in
    subst (LastStep xs) (omega (arith, m.here)) (record {
      inside = m.inside;
      step = m.step;
      found = m.found;
      marks = m.marks;
      none_after =
          subst (λ n. positions n (drop (suc m.offset) xs) ≡ []) (omega arith) m.none_after;
      same = m.same;
    })

module _ (steps : List DurableStep) where
  pub runner_new-IsValid : IsValid steps runner_new
  unfolding runner_new
  runner_new-IsValid = record { cursor_in = omega arith; exact = refl }

  pub reset-IsValid : (r : DurableRunner) → IsValid steps (reset r)
  unfolding reset
  reset-IsValid r = record { cursor_in = omega arith; exact = refl }

  positions-take-add :
      (c k : ℕ)
      → c ≤ length steps
      → positions 0 (take (c + k) steps)
        ≡ positions 0 (take c steps) ++ positions c (take k (drop c steps))
  positions-take-add c k h =
      ap (positions 0) (take-add c k steps)
      ∙ positions-append 0 (take c steps) (take k (drop c steps))
      ∙ ap (λ n. positions 0 (take c steps) ++ positions n (take k (drop c steps)))
          (omega (arith, length-take_le c steps))

  -- A run from a valid runner, whether it succeeds or fails, leaves a valid runner: the
  -- checkpoints saved so far are exactly those of the checkpoint steps before the cursor.
  pub run-IsValid :
      (b : Backend) (r : DurableRunner) (w : b.World)
      → IsValid steps r
      → let (res, r', w') = run b steps r w in IsValid steps r'
  run-IsValid b r w v =
      let x : Ran b (drop r.current_step steps) r w (run b steps r w).0 (run b steps r w).1
          (run b steps r w).2 =
        run-Ran b steps r w in
      record {
        cursor_in =
            omega (arith, x.cursor, x.within, length-drop r.current_step steps, v.cursor_in);
        exact =
            x.marks
            ∙ ap (λ l. l ++ positions r.current_step (take x.passed (drop r.current_step steps)))
                v.exact
            ∙ sym (positions-take-add r.current_step x.passed v.cursor_in)
            ∙ ap (λ n. positions 0 (take n steps)) (sym x.cursor);
      }

  -- The runner that a recovery starts from: the last checkpoint, if there is one.
  pub record Recovery (r : DurableRunner) (c : Checkpoint) : Type 0 where
    pub valid : IsValid steps (resume_from_checkpoint c r)
    pub behind : (resume_from_checkpoint c r).current_step ≤ r.current_step
    pub after : (resume_from_checkpoint c r).current_step ≡ c.step_index + 1
    pub step : DurableStep
    pub at : get_elem? steps c.step_index ≡ some step
    pub marks : is_checkpoint step.action ≡ true
    pub unproven :
        positions (c.step_index + 1) (drop (c.step_index + 1) (take r.current_step steps)) ≡ []

  -- Recovery from the last checkpoint of a valid runner, for a workflow of fewer than 2^64 steps:
  -- the cursor moves back to just after a checkpoint step, no checkpoint step stands between that
  -- place and the old cursor (so no step before a checkpoint is executed again), and the runner
  -- stays valid.
  pub resume-Recovery :
      (r : DurableRunner) (c : Checkpoint)
      → length steps < 2 ^ 64
      → IsValid steps r
      → last_checkpoint r ≡ some c
      → Recovery r c
  unfolding last_checkpoint resume_from_checkpoint
  resume-Recovery r c small v h = record {
    valid = record {
      cursor_in = omega (arith, before, v.cursor_in);
      exact =
          v.exact
          ∙ sym m.same
          ∙ ap (positions 0) (take-take (suc p) r.current_step steps before)
          ∙ ap (λ n. positions 0 (take n steps)) {x = suc p} (omega (arith, before, v.cursor_in));
    };
    behind = omega (arith, before, v.cursor_in);
    after = omega (arith, before, v.cursor_in);
    step = m.step;
    at = get_elem?-take r.current_step steps p m.step m.found;
    marks = m.marks;
    unproven =
        subst (λ n. positions n (drop n (take r.current_step steps)) ≡ []) {x = suc p} (omega arith)
          m.none_after;
  }
    where
      p : ℕ
      p = c.step_index

      m : LastStep (take r.current_step steps) p
      m = positions-LastStep (take r.current_step steps) p (
          ap get_last? (sym v.exact)
          ∙ get_last?-map (λ (c : Checkpoint). c.step_index) r.checkpoints
          ∙ ap (map_option (λ (c : Checkpoint). c.step_index)) h)

      before : c.step_index < r.current_step
      before = omega (arith, m.inside, length-take_le r.current_step steps v.cursor_in)
