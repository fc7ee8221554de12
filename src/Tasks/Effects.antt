-- ===== src/Tasks/Effects.antt =====
-- src/mcp/server_handlers.rs: each step of a session has one of the effects on the tasks.
use axterminator.Prelude.{
  ◌+◌, ◌^◌, ◌<◌, ◌≡◌, refl, sym, subst, String, false, Option, none, some, List, ◌++◌, Result, ok,
  err, arith,
}
use axterminator.Prelude.TextMaps
use axterminator.Tasks.{
  is_working, Runtime, ToolCallResult, TaskEntry, Thread, Tasks, next_task_id, dispatch_as_task,
  finished, finish, cancelled_entry, cancel, handle_tasks_cancel,
}
use axterminator.Tasks.Life.{
  Step, called, ended, asked, at, Effect, unchanged, changes, adds, insert-Changed,
  finished-Delivered, cancelled-Delivered,
}

module _ (rt : Runtime) where
  open rt use {Value, task_name, parse_cancel_params}

  finish-Effect :
      (thread : Thread rt) (r : ToolCallResult rt) (others : List (Thread rt)) (t : Tasks rt)
      → Effect rt t (finish rt thread r others t)
  unfolding finish
  finish-Effect thread r others t = split (at rt thread.task_id t) refl
    where
      finished_terminal :
          (name : String) (r : ToolCallResult rt) (old : TaskEntry rt)
          → is_working old.info.status ≡ false
          → finished rt name r old ≡ old
      finished_terminal name r old h = unfold finished in ground (arith, h)

      split :
          (o : Option (TaskEntry rt))
          → at rt thread.task_id t ≡ o
          → Effect rt t (finish rt thread r others t)
      split none h = subst (Effect rt t) (sym (gone h)) (unchanged refl refl)
        where
          gone :
              at rt thread.task_id t ≡ none
              → finish rt thread r others t ≡ record t { threads = others }
          gone h = rw (h, finish) refl
      split (some old) h = subst (Effect rt t) (sym (found h)) (
          changes thread.task_id old (finished rt thread.name r old) h
            (finished_terminal thread.name r old)
            (finished-Delivered rt thread.task_id thread.name r old) refl
            (insert-Changed rt thread.task_id _ t _ refl))
        where
          found :
              at rt thread.task_id t ≡ some old
              → finish rt thread r others t ≡ record t {
                entries = TextMaps.insert thread.task_id (finished rt thread.name r old) t.entries;
                threads = others;
              }
          found h = rw (h, finish) refl

  cancel-Effect : (id : String) (t : Tasks rt) → Effect rt t (cancel rt id t).1
  unfolding cancel
  cancel-Effect id t = split (at rt id t) refl
    where
      cancelled_terminal :
          (old : TaskEntry rt) → is_working old.info.status ≡ false → cancelled_entry rt old ≡ old
      cancelled_terminal old h = unfold cancelled_entry in ground (arith, h)

      split : (o : Option (TaskEntry rt)) → at rt id t ≡ o → Effect rt t (cancel rt id t).1
      split none h = subst (Effect rt t) (sym (gone h)) (unchanged refl refl)
        where
          gone : at rt id t ≡ none → (cancel rt id t).1 ≡ t
          gone h = ground (arith, h)
      split (some old) h = subst (Effect rt t) (sym (found h)) (
          changes id old (cancelled_entry rt old) h (cancelled_terminal old)
            (cancelled-Delivered rt id old) refl (insert-Changed rt id _ t _ refl))
        where
          found :
              at rt id t ≡ some old
              → (cancel rt id t).1
                ≡ record t { entries = TextMaps.insert id (cancelled_entry rt old) t.entries }
          found h = rw (h, cancel) refl

  handle_tasks_cancel-Effect :
      (params : Option Value) (t : Tasks rt) → Effect rt t (handle_tasks_cancel rt params t).1
  unfolding handle_tasks_cancel
  handle_tasks_cancel-Effect none t = unchanged refl refl
  handle_tasks_cancel-Effect (some v) t = split (parse_cancel_params v) refl
    where
      split :
          (o : Result String String)
          → parse_cancel_params v ≡ o
          → Effect rt t (handle_tasks_cancel rt (some v) t).1
      split (ok id) h = rw (h, handle_tasks_cancel) (cancel-Effect id t)
      split (err e) h = rw (h, handle_tasks_cancel) (unchanged refl refl)

  dispatch_as_task-Effect :
      (name : String) (t : Tasks rt)
      → t.counter + 1 < 2 ^ 64
      → Effect rt t (dispatch_as_task rt name t).1
  unfolding dispatch_as_task next_task_id
  dispatch_as_task-Effect name t h =
      adds _ (omega (arith, h)) (refl, refl) (insert-Changed rt (task_name t.counter) _ t _ refl)

  pub Step-Effect : {t u : Tasks rt} → Step rt t u → Effect rt t u
  Step-Effect (called {t = t} name h) = dispatch_as_task-Effect name t h
  Step-Effect (ended {t = t} before after thread r h) = finish-Effect thread r (before ++ after) t
  Step-Effect (asked {t = t} params) = handle_tasks_cancel-Effect params t
