-- ===== src/Durable/Retry.antt =====
-- src/durable_steps.rs, `execute_with_retry`: how often an action is executed, and what is returned.
use axterminator.Prelude.{
  ℕ, zero, suc, ◌+◌, ◌≤◌, ◌<◌, ◌≡◌, refl, sym, ap, subst, ◌∙◌, String, true, false, Result, ok, err,
  is_ok, arith,
}
use axterminator.Durable.{Backend, StepAction, DurableStep, attempts_from, execute_with_retry}

module _ (b : Backend) (action : StepAction) where
  open b use {World, execute}

  -- The world after `n` executions of the action.
  abbrev pub after : ℕ → World → World
  after zero w = w
  after (suc n) w = after n (execute action w).1

  -- What the execution number `n` (from 0) returns.
  abbrev pub outcome : ℕ → World → Result (Unit {0}) String
  outcome n w = (execute action (after n w)).0

  -- What the loop may return: the number of the first execution that succeeds, or the error of the
  -- last of `n` executions that all fail.
  abbrev Explains : ℕ → ℕ → String → World → Result ℕ String → World → Type 0
  Explains n attempt e0 w (ok k) w' =
      (j : ℕ) × (k ≡ attempt + j)
      × (j < n)
      × (is_ok (outcome j w) ≡ true)
      × ((i : ℕ) → i < j → is_ok (outcome i w) ≡ false)
      × (w' ≡ after (suc j) w)
  Explains n attempt e0 w (err e) w' =
      ((i : ℕ) → i < n → is_ok (outcome i w) ≡ false)
      × (w' ≡ after n w)
      × ((m : ℕ) → n ≡ suc m → outcome m w ≡ err e)
      × (n ≡ 0 → e ≡ e0)

  -- An execution that fails shifts the account by one.
  Explains-suc :
      (n attempt : ℕ) (e0 e : String) (w : World) (r : Result ℕ String) (w' : World)
      → outcome 0 w ≡ err e
      → Explains n (attempt + 1) e (after 1 w) r w'
      → Explains (suc n) attempt e0 w r w'
  Explains-suc n attempt e0 e w (ok k) w' h (j, k_eq, lt, done, before, w_eq) =
      (suc j, omega arith, omega arith, done, failing, w_eq)
    where
      failing : (i : ℕ) → i < suc j → is_ok (outcome i w) ≡ false
      failing zero l = ap is_ok h
      failing (suc i) l = before i (omega arith)
  Explains-suc n attempt e0 e w (err e1) w' h (all, w_eq, last, none_left) =
      (failing, w_eq, final n last none_left, λ z. absurd (omega arith))
    where
      failing : (i : ℕ) → i < suc n → is_ok (outcome i w) ≡ false
      failing zero l = ap is_ok h
      failing (suc i) l = all i (omega arith)

      final :
          (n : ℕ)
          → ((m : ℕ) → n ≡ suc m → outcome m (after 1 w) ≡ err e1)
          → (n ≡ 0 → e1 ≡ e)
          → (m : ℕ) → suc n ≡ suc m
          → outcome m w ≡ err e1
      final zero last none_left zero p = h ∙ ap err (sym (none_left refl))
      final zero last none_left (suc m) p = absurd (omega arith)
      final (suc n) last none_left zero p = absurd (omega arith)
      final (suc n) last none_left (suc m) p = last m (omega arith)

  -- One round of the loop, on each outcome.
  attempts_from_passed :
      (n attempt : ℕ) (e0 : String) (u : Unit {0}) (w w1 : World)
      → execute action w ≡ (ok u, w1)
      → attempts_from b action (suc n) attempt e0 w ≡ (ok attempt, w1)
  unfolding attempts_from
  attempts_from_passed n attempt e0 u w w1 p = ground arith

  attempts_from_again :
      (n attempt : ℕ) (e0 e : String) (w w1 : World)
      → execute action w ≡ (err e, w1)
      → attempts_from b action (suc n) attempt e0 w ≡ attempts_from b action n (attempt + 1) e w1
  unfolding attempts_from
  attempts_from_again n attempt e0 e w w1 p = ground arith

  attempts_from-Explains :
      (n attempt : ℕ) (e0 : String) (w : World)
      → let (r, w') = attempts_from b action n attempt e0 w in Explains n attempt e0 w r w'
  unfolding attempts_from
  attempts_from-Explains zero attempt e0 w =
      ((λ i l. absurd (omega arith)), refl, (λ m p. absurd (omega arith)), λ _. refl)
  attempts_from-Explains (suc n) attempt e0 w =
      split (execute action w) refl (attempts_from-Explains n (attempt + 1))
    where
      split :
          (x : Result (Unit {0}) String × World)
          → execute action w ≡ x
          → ((e : String) (w1 : World)
              → let (r, w') = attempts_from b action n (attempt + 1) e w1 in
                Explains n (attempt + 1) e w1 r w')
          → let (r, w') = attempts_from b action (suc n) attempt e0 w in
            Explains (suc n) attempt e0 w r w'
      split (ok u, w1) p ih =
          subst (λ q. Explains (suc n) attempt e0 w q.0 q.1)
            (sym (attempts_from_passed n attempt e0 u w w1 p))
            (
              0,
              omega arith,
              omega arith,
              ap (λ q. is_ok q.0) p,
              (λ i l. absurd (omega arith)),
              sym (ap (λ q. q.1) p),
            )
      split (err e, w1) p ih =
          subst (λ q. Explains (suc n) attempt e0 w q.0 q.1)
            (sym (attempts_from_again n attempt e0 e w w1 p))
            (Explains-suc n attempt e0 e w _ _ (ap (λ q. q.0) p) (
              subst
                (λ v.
                  Explains n (attempt + 1) e v (attempts_from b action n (attempt + 1) e w1).0
                    (attempts_from b action n (attempt + 1) e w1).1)
                (sym (ap (λ q. q.1) p)) (ih e w1)))

module _ (b : Backend) (step : DurableStep) (w : b.World) where
  -- What a result of `execute_with_retry` says of the executions made.
  pub record Retried : Type 0 where
    pub passed :
        (k : ℕ)
        → (execute_with_retry b step w).0 ≡ ok k
        → (k ≤ step.max_retries)
          × (is_ok (outcome b step.action k w) ≡ true)
          × ((i : ℕ) → i < k → is_ok (outcome b step.action i w) ≡ false)
          × ((execute_with_retry b step w).1 ≡ after b step.action (suc k) w)
    pub gave_up :
        (e : String)
        → (execute_with_retry b step w).0 ≡ err e
        → ((i : ℕ) → i ≤ step.max_retries → is_ok (outcome b step.action i w) ≡ false)
          × (outcome b step.action step.max_retries w ≡ err e)
          × ((execute_with_retry b step w).1 ≡ after b step.action (suc step.max_retries) w)

  -- An action is executed again only while it fails, and at most `max_retries + 1` times in all:
  -- if `ok k` is returned, execution number `k` (from 0) is the first to succeed, at most
  -- `max_retries` retries were used, and the world is that after `k + 1` executions; if an error
  -- is returned, all `max_retries + 1` executions failed, the error is that of the last, and the
  -- world is that after all of them.
  pub execute_with_retry-Retried : Retried
  unfolding execute_with_retry
  execute_with_retry-Retried = record {
    passed = λ k p. ok_case k _ p all;
    gave_up = λ e p. err_case e _ p all;
  }
    where
      n : ℕ
      n = suc step.max_retries

      all :
          Explains b step.action n 0 "" w
            (execute_with_retry b step w).0
            (execute_with_retry b step w).1
      all = attempts_from-Explains b step.action n 0 "" w

      ok_case :
          (k : ℕ) (r : Result ℕ String)
          → r ≡ ok k
          → Explains b step.action n 0 "" w r (execute_with_retry b step w).1
          → (k ≤ step.max_retries)
            × (is_ok (outcome b step.action k w) ≡ true)
            × ((i : ℕ) → i < k → is_ok (outcome b step.action i w) ≡ false)
            × ((execute_with_retry b step w).1 ≡ after b step.action (suc k) w)
      ok_case k r p x =
          let (j, k_eq, lt, done, before, world) =
            subst (λ q. Explains b step.action n 0 "" w q (execute_with_retry b step w).1) p x in
          let e : k ≡ j = omega arith in rw e (omega arith, done, before, world)

      err_case :
          (e : String) (r : Result ℕ String)
          → r ≡ err e
          → Explains b step.action n 0 "" w r (execute_with_retry b step w).1
          → ((i : ℕ) → i ≤ step.max_retries → is_ok (outcome b step.action i w) ≡ false)
            × (outcome b step.action step.max_retries w ≡ err e)
            × ((execute_with_retry b step w).1 ≡ after b step.action (suc step.max_retries) w)
      err_case e r p x =
          let (f, l, m, z) =
            subst (λ q. Explains b step.action n 0 "" w q (execute_with_retry b step w).1) p x in
          ((λ i h. f i (omega arith)), m step.max_retries refl, l)
