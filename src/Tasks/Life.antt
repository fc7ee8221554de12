-- ===== src/Tasks/Life.antt =====
-- The life of the tasks of a session: src/mcp/server_handlers.rs, with calls, cancellations and
-- ends of threads in any order.
use axterminator.Prelude.{
  ℕ, ◌+◌, ◌^◌, ◌≤◌, ◌<◌, ◌≡◌, ◌≢◌, refl, sym, ap, subst, ◌∙◌, String, Bool, true, false, Option,
  none, some, List, [], ◌∷◌, ◌++◌, format, arith, str_eq, str_eq_iff, Bool-cases, inl, inr,
}
use axterminator.Prelude.TextMaps
use axterminator.Tasks.{
  Status, is_working, Runtime, ToolCallResult, TaskEntry, Thread, Tasks, tasks_new,
  dispatch_as_task, finished, finish, cancelled_entry, handle_tasks_cancel,
}

module _ (rt : Runtime) where
  open rt use {Value, task_name, parse_cancel_params}

  -- A step of a session with fewer than 2^64 tasks: a call that starts a task, the end of one of the
  -- running threads with any result, or a request to cancel.
  pub data Step : Tasks rt → Tasks rt → Type 0 where
    called :
        {t : Tasks rt} (name : String)
        → t.counter + 1 < 2 ^ 64
        → Step t (dispatch_as_task rt name t).1
    ended :
        {t : Tasks rt} (before after : List (Thread rt)) (thread : Thread rt)
        (r : ToolCallResult rt)
        → t.threads ≡ before ++ (thread ∷ after)
        → Step t (finish rt thread r (before ++ after) t)
    asked : {t : Tasks rt} (params : Option Value) → Step t (handle_tasks_cancel rt params t).1

  pub data Steps (t : Tasks rt) : Tasks rt → Type 0 where
    here : Steps t t
    next : {u v : Tasks rt} → Steps t u → Step u v → Steps t v

  -- What a status says of the result.
  abbrev pub Delivered : Status → Option (ToolCallResult rt) → Type 0
  Delivered Status.working o = o ≡ none
  Delivered Status.cancelled o = o ≡ none
  Delivered Status.done o = (r : ToolCallResult rt) × (o ≡ some r) × (r.is_error ≡ false)
  Delivered Status.failed o = (r : ToolCallResult rt) × (o ≡ some r) × (r.is_error ≡ true)

  abbrev pub at : String → Tasks rt → Option (TaskEntry rt)
  at id t = TextMaps.lookup id t.entries

  abbrev pub IsEntry : String → TaskEntry rt → Type 0
  IsEntry id e = Delivered e.info.status e.result × (e.info.task_id ≡ id)

  -- Every entry is well-formed, and no task has the name of a number not yet given.
  pub record IsValid (t : Tasks rt) : Type 0 where
    pub entries : (id : String) (e : TaskEntry rt) → at id t ≡ some e → IsEntry id e
    pub fresh : (k : ℕ) → t.counter ≤ k → at (task_name k) t ≡ none

  -- What one change at `id` does to the entries: `old` is what was there.
  pub record Changed (id : String) (e : TaskEntry rt) (t u : Tasks rt) : Type 0 where
    pub changed : at id u ≡ some e
    pub kept : (other : String) → other ≢ id → at other u ≡ at other t

  pub insert-Changed :
      (id : String) (e : TaskEntry rt) (t u : Tasks rt)
      → u.entries ≡ TextMaps.insert id e t.entries
      → Changed id e t u
  insert-Changed id e t u h = record {
    changed =
        ap (TextMaps.lookup id) h
        ∙ ground (arith, TextMaps.lookup-insert id id e t.entries, str_eq_iff id id);
    kept = λ other ne.
        ap (TextMaps.lookup other) h
        ∙ ground (arith, TextMaps.lookup-insert id other e t.entries, str_eq_iff id other);
  }

  pub Changed-entries :
      (id : String) (e : TaskEntry rt) (t u : Tasks rt)
      → Changed id e t u
      → IsValid t
      → IsEntry id e
      → (other : String) (x : TaskEntry rt) → at other u ≡ some x
      → IsEntry other x
  Changed-entries id e t u c v i other x h = elim (Bool-cases (str_eq other id)) [
    | inl q ↦
        let p : other ≡ id = (str_eq_iff other id).0 q in
        let s : e ≡ x = ground (arith, p, c.changed, h) in
        subst (λ o. IsEntry o x) (sym p) (subst (IsEntry id) s i)
    | inr q ↦
        v.entries other x (sym (c.kept other (λ p. ground (arith, p, q, str_eq_iff other id))) ∙ h)
  ]

  pub finished-Delivered :
      (id name : String) (r : ToolCallResult rt) (e : TaskEntry rt)
      → IsEntry id e
      → IsEntry id (finished rt name r e)
  unfolding finished
  finished-Delivered id name r e i = go (is_working e.info.status) r.is_error refl refl
    where
      along :
          (x : TaskEntry rt)
          → finished rt name r e ≡ x
          → IsEntry id x
          → IsEntry id (finished rt name r e)
      along x h k = subst (IsEntry id) (sym h) k

      go :
          (w b : Bool)
          → is_working e.info.status ≡ w
          → r.is_error ≡ b
          → IsEntry id (finished rt name r e)
      go false b h k = along e (ground (arith, h)) i
      go true true h k =
          along
            (record {
              info = record (e.info) {
                status = Status.failed;
                status_message = some "Tool returned an error";
              };
              result = some r;
            })
            (ground (arith, h, k)) ((r, refl, k), i.1)
      go true false h k =
          along
            (record {
              info = record (e.info) {
                status = Status.done;
                status_message = some (format (name ∷ " completed" ∷ []));
              };
              result = some r;
            })
            (ground (arith, h, k)) ((r, refl, k), i.1)

  pub cancelled-Delivered :
      (id : String) (e : TaskEntry rt) → IsEntry id e → IsEntry id (cancelled_entry rt e)
  unfolding cancelled_entry
  cancelled-Delivered id e i = split e.info.status refl i.0
    where
      along :
          (x : TaskEntry rt)
          → cancelled_entry rt e ≡ x
          → IsEntry id x
          → IsEntry id (cancelled_entry rt e)
      along x h k = subst (IsEntry id) (sym h) k

      same : is_working e.info.status ≡ false → IsEntry id (cancelled_entry rt e)
      same h = along e (ground (arith, h)) i

      split :
          (st : Status)
          → e.info.status ≡ st
          → Delivered st e.result
          → IsEntry id (cancelled_entry rt e)
      split Status.working h d =
          along
            (record e {
              info = record (e.info) {
                status = Status.cancelled;
                status_message = some "Cancelled by client";
              };
            })
            (ground (arith, h)) (d, i.1)
      split Status.done h d = same (ap is_working h)
      split Status.failed h d = same (ap is_working h)
      split Status.cancelled h d = same (ap is_working h)

  pub tasks_new-IsValid : IsValid (tasks_new rt)
  unfolding tasks_new TextMaps.lookup
  tasks_new-IsValid = record { entries = λ id e h. absurd (ground arith); fresh = λ k h. refl }

  -- What a step does: it leaves the entries, or changes one that there was into one that is
  -- terminal if the old one was, or adds one that was not there.
  pub data Effect (t u : Tasks rt) : Type 0 where
    unchanged : u.entries ≡ t.entries → u.counter ≡ t.counter → Effect t u
    changes :
        (id : String) (old e : TaskEntry rt)
        → at id t ≡ some old
        → (is_working old.info.status ≡ false → e ≡ old)
        → (IsEntry id old → IsEntry id e)
        → u.counter ≡ t.counter
        → Changed id e t u
        → Effect t u
    adds :
        (e : TaskEntry rt)
        → u.counter ≡ t.counter + 1
        → IsEntry (task_name t.counter) e
        → Changed (task_name t.counter) e t u
        → Effect t u
