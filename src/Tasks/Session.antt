-- ===== src/Tasks/Session.antt =====
-- What stays true of the tasks through a session: src/mcp/server_handlers.rs.
use axterminator.Prelude.{
  ℕ, ◌≡◌, refl, sym, ap, subst, ◌∙◌, String, false, Option, none, some, ok, arith, str_eq,
  str_eq_iff, Bool-cases, inl, inr,
}
use axterminator.Tasks.{
  Status, is_working, Runtime, ToolCallResult, TaskEntry, Tasks, Polled, tasks_new, poll,
}
use axterminator.Tasks.Effects.{Step-Effect}
use axterminator.Tasks.Life.{
  Steps, here, next, Delivered, at, IsEntry, IsValid, Changed-entries, Effect, unchanged, changes,
  adds, tasks_new-IsValid,
}

module _ (rt : Runtime) (names_differ : (m n : ℕ) → rt.task_name m ≡ rt.task_name n → m ≡ n) where
  open rt use {task_name}

  Effect-IsValid : {t u : Tasks rt} → Effect rt t u → IsValid rt t → IsValid rt u
  Effect-IsValid {t = t} {u = u} (unchanged h c) v = record {
    entries =
        subst
          (λ l.
            (id : String) (e : TaskEntry rt)
            → at rt id (record t { entries = l }) ≡ some e
            → IsEntry rt id e)
          (sym h) v.entries;
    fresh = λ k l.
        ap (λ m. at rt (task_name k) (record t { entries = m })) h ∙ v.fresh k (omega (arith, c));
  }
  Effect-IsValid {t = t} {u = u} (changes id old e h same i c ch) v = record {
    entries = Changed-entries rt id e t u ch v (i (v.entries id old h));
    fresh = λ k l.
        let absent = v.fresh k (omega (arith, c)) in
        ch.kept (task_name k) (λ p. ground (arith, p, h, absent)) ∙ absent;
  }
  Effect-IsValid {t = t} {u = u} (adds e c i ch) v = record {
    entries = Changed-entries rt (task_name t.counter) e t u ch v i;
    fresh = λ k l.
        ch.kept (task_name k) (λ p. omega (arith, names_differ k t.counter p, c))
        ∙ v.fresh k (omega (arith, c));
  }

  Effect-terminal :
      {t u : Tasks rt} (id : String) (e : TaskEntry rt)
      → Effect rt t u
      → IsValid rt t
      → at rt id t ≡ some e
      → is_working e.info.status ≡ false
      → at rt id u ≡ some e
  Effect-terminal {t = t} id e (unchanged h c) v f w =
      ap (λ m. at rt id (record t { entries = m })) h ∙ f
  Effect-terminal {t = t} {u = u} id e (changes at_id old new h same i c ch) v f w =
      elim (Bool-cases (str_eq id at_id)) [
        | inl q ↦
            let p : id ≡ at_id = (str_eq_iff id at_id).0 q in
            let s : old ≡ e = ground (arith, p, h, f) in
            ap (λ x. at rt x u) p
            ∙ ch.changed
            ∙ ap some (same (ap (λ (x : TaskEntry rt). is_working x.info.status) s ∙ w) ∙ s)
        | inr q ↦ ch.kept id (λ p. ground (arith, p, q, str_eq_iff id at_id)) ∙ f
      ]
  Effect-terminal {t = t} id e (adds new c i ch) v f w =
      ch.kept id (λ p. ground (arith, p, f, v.fresh t.counter (omega arith))) ∙ f

  Steps-IsValid : {t u : Tasks rt} → Steps rt t u → IsValid rt t → IsValid rt u
  Steps-IsValid here v = v
  Steps-IsValid (next s st) v = Effect-IsValid (Step-Effect rt st) (Steps-IsValid s v)

  -- At any point of a session, if the printed names of different numbers differ, an entry has the
  -- task's own identifier; it has no result while it is working or if it is cancelled, a result
  -- that is no error if it is done, and one that is an error if it failed.
  pub Steps-Delivered :
      {t : Tasks rt} (id : String) (e : TaskEntry rt)
      → Steps rt (tasks_new rt) t
      → at rt id t ≡ some e
      → Delivered rt e.info.status e.result × (e.info.task_id ≡ id)
  Steps-Delivered id e s h = (Steps-IsValid s (tasks_new-IsValid rt)).entries id e h

  -- If the printed names of different numbers differ, an entry that is no longer working at some
  -- point of a session is there, unchanged, at every later point.
  pub Steps-terminal :
      {t u : Tasks rt} (id : String) (e : TaskEntry rt)
      → Steps rt (tasks_new rt) t
      → at rt id t ≡ some e
      → is_working e.info.status ≡ false
      → Steps rt t u
      → at rt id u ≡ some e
  Steps-terminal id e s h w here = h
  Steps-terminal id e s h w (next r st) =
      Effect-terminal id e (Step-Effect rt st)
        (Steps-IsValid r (Steps-IsValid s (tasks_new-IsValid rt))) (Steps-terminal id e s h w r) w

  -- If the printed names of different numbers differ, a poll that gave a result at some point of a
  -- session gives the same result at every later point.
  pub poll_stays :
      {t u : Tasks rt} (id : String) (r : ToolCallResult rt)
      → Steps rt (tasks_new rt) t
      → poll rt id t ≡ ok (Polled.complete r)
      → Steps rt t u
      → poll rt id u ≡ ok (Polled.complete r)
  unfolding poll
  poll_stays {t = t} {u = u} id r s h later = split (at rt id t) refl
    where
      delivered : (e : TaskEntry rt) → at rt id t ≡ some e → e.result ≡ some r
      delivered e f = go e.result refl
        where
          go : (o : Option (ToolCallResult rt)) → e.result ≡ o → e.result ≡ some r
          go none g = absurd (ground (arith, f, g, h))
          go (some x) g = ground (arith, f, g, h)

      terminal :
          (st : Status) (o : Option (ToolCallResult rt))
          → o ≡ some r
          → Delivered rt st o
          → is_working st ≡ false
      terminal Status.working o g d = absurd (ground (arith, g, d))
      terminal Status.done o g d = refl
      terminal Status.failed o g d = refl
      terminal Status.cancelled o g d = refl

      split : (o : Option (TaskEntry rt)) → at rt id t ≡ o → poll rt id u ≡ ok (Polled.complete r)
      split none f = absurd (ground (arith, f, h))
      split (some e) f =
          let g = delivered e f in
          let w = terminal e.info.status e.result g (Steps-Delivered id e s f).0 in
          let k = Steps-terminal id e s f w later in rw (k, g, poll) refl
