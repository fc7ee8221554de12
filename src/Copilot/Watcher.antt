-- ===== src/Copilot/Watcher.antt =====
-- src/copilot_state.rs, `watch_state_changes`: what the callback has been told.
use axterminator.Prelude.{◌≡◌, ◌≢◌, refl, sym, List, [], ◌∷◌, arith}
use axterminator.Copilot.{CopilotState, StateChange, Printers, diff_states, watch_loop}
use axterminator.Copilot.Diff.{Same, diff_states-Same}

abbrev pub latest_snapshot : CopilotState → List CopilotState → CopilotState
latest_snapshot s [] = s
latest_snapshot s (t ∷ ts) = latest_snapshot t ts

abbrev pub told : CopilotState → List (CopilotState × List StateChange) → CopilotState
told s [] = s
told s ((t, changes) ∷ calls) = told t calls

module _ (p : Printers) where
  -- Each call has the changes, at least one, since the state of the call before.
  abbrev pub Reports : CopilotState → List (CopilotState × List StateChange) → Type 0
  Reports s [] = Unit
  Reports s ((t, changes) ∷ calls) =
      (changes ≡ diff_states p s t) × (changes ≢ []) × Reports t calls

  abbrev pub Watched :
      CopilotState
      → List CopilotState
      → List (CopilotState × List StateChange) × CopilotState
      → Type 0
  Watched prev snapshots (calls, last) =
      Reports prev calls × (last ≡ told prev calls) × Same last (latest_snapshot prev snapshots)

  Same-refl : (s : CopilotState) → Same s s
  Same-refl s = (diff_states-Same p s s).0 (
      (diff_states-Same p s s).1 (record {
        app = refl;
        selected_text = refl;
        selected_list_row = refl;
        selected_items = refl;
        navigation = refl;
        content = refl;
      }))

  -- The loop has compared the snapshots so far with `prev`, and the last of them is `now`.
  abbrev Since :
      CopilotState
      → CopilotState
      → List CopilotState
      → List (CopilotState × List StateChange) × CopilotState
      → Type 0
  Since prev now snapshots (calls, last) =
      Reports prev calls × (last ≡ told prev calls) × Same last (latest_snapshot now snapshots)

  watch_loop-Since :
      (prev now : CopilotState) (snapshots : List CopilotState)
      → Same prev now
      → Since prev now snapshots (watch_loop p prev snapshots)
  unfolding watch_loop
  watch_loop-Since prev now [] s = (tt, refl, s)
  watch_loop-Since prev now (t ∷ ts) s =
      split (diff_states p prev t) refl (watch_loop-Since prev t ts)
        (watch_loop-Since t t ts (Same-refl t))
    where
      split :
          (c : List StateChange)
          → diff_states p prev t ≡ c
          → (Same prev t → Since prev t ts (watch_loop p prev ts))
          → Since t t ts (watch_loop p t ts)
          → Since prev now (t ∷ ts) (watch_loop p prev (t ∷ ts))
      split [] e kept moved = rw (e, watch_loop) (kept ((diff_states-Same p prev t).0 e))
      split (c ∷ cs) e kept moved =
          let (r, l, m) = moved in rw (e, watch_loop) ((sym e, (λ n. ground (arith, n)), r), l, m)

  -- Whatever snapshots the watcher reads: each call of the callback gets the changes, at least one,
  -- since the state it got before; and the last state it got, or the first snapshot, is the latest
  -- snapshot in all fields but the selected cell of a table and the time.
  pub watch_loop-Watched :
      (prev : CopilotState) (snapshots : List CopilotState)
      → Watched prev snapshots (watch_loop p prev snapshots)
  watch_loop-Watched prev snapshots = watch_loop-Since prev prev snapshots (Same-refl prev)
