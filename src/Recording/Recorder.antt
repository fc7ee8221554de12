-- ===== src/Recording/Recorder.antt =====
-- src/recording.rs, `WorkflowRecorder`: what a session of recording captures.
use axterminator.Prelude.{
  ℕ, ◌-◌, ◌≡◌, refl, sym, ap, ◌∙◌, true, false, Option, List, [], ◌∷◌, ◌++◌, map,
}
use mathlib.Core.List.{append_assoc, append-nil}
use axterminator.Recording.{
  Floats, RecordedEvent, WorkflowRecorder, now_ms, start_recording, stop_recording, record_event,
}

module _ (f : Floats) where
  -- Events as they come, each with the clock reading of its call of `record_event`.
  abbrev pub record_events :
      List (Option ℕ × RecordedEvent f) → WorkflowRecorder f → WorkflowRecorder f
  record_events [] r = r
  record_events ((t, e) ∷ es) r = record_events es (record_event f t e r)

  -- The event with its time since the start, which is 0 if the clock went back.
  abbrev pub stamp : ℕ → Option ℕ × RecordedEvent f → RecordedEvent f
  stamp start (t, e) = record e { timestamp = now_ms f t - start }

  record_events_on :
      (es : List (Option ℕ × RecordedEvent f)) (r : WorkflowRecorder f)
      → r.recording ≡ true
      → record_events es r ≡ record r { events = r.events ++ map (stamp r.start_ms) es }
  unfolding record_event
  record_events_on [] r h = ap (λ l. record r { events = l }) (sym (append-nil r.events))
  record_events_on ((t, e) ∷ es) r h =
      ap (record_events es) (one t e)
      ∙ record_events_on es _ h
      ∙ ap (λ l. record r { events = l })
          (append_assoc r.events (stamp r.start_ms (t, e) ∷ []) (map (stamp r.start_ms) es))
    where
      one :
          (t : Option ℕ) (e : RecordedEvent f)
          → record_event f t e r ≡ record r { events = r.events ++ (stamp r.start_ms (t, e) ∷ []) }
      one t e = rw (h, record_event) refl

  record_events_off :
      (es : List (Option ℕ × RecordedEvent f)) (r : WorkflowRecorder f)
      → r.recording ≡ false
      → record_events es r ≡ r
  unfolding record_event
  record_events_off [] r h = refl
  record_events_off ((t, e) ∷ es) r h =
      ap (record_events es) (rw (h, record_event) refl) ∙ record_events_off es r h

  -- A session started at any state captures exactly the events between the start and the stop, in
  -- order, each stamped with the time since the start; the recorder is then empty and off, and
  -- further events change nothing.
  pub session_exact :
      (r : WorkflowRecorder f) (start : Option ℕ) (es late : List (Option ℕ × RecordedEvent f))
      → let (captured, r') = stop_recording f (record_events es (start_recording f start r)) in
        (captured ≡ map (stamp (now_ms f start)) es)
        × (r'.events ≡ [])
        × (r'.recording ≡ false)
        × (record_events late r' ≡ r')
  unfolding start_recording stop_recording
  session_exact r start es late = (
    ap (λ (x : WorkflowRecorder f). x.events) (record_events_on es _ refl),
    refl,
    refl,
    record_events_off late _ refl,
  )
