-- ===== src/Recording/Replay.antt =====
-- src/recording.rs, `WorkflowPlayer`: which events a replay executes, adapts and fails.
use axterminator.Prelude.{
  ℕ, suc, ◌+◌, ◌≡◌, refl, sym, ap, subst₂, ◌∙◌, String, Bool, true, false, not, ◌&&◌, Option, none,
  some, List, [], ◌∷◌, ◌++◌, map, Result, is_ok, arith, length, if◌then◌else◌, ◌==◌, map-append_one,
}
use mathlib.Core.List.{append_assoc, append-nil}
use axterminator.Refs.{Platform, RefStore}
use axterminator.Recording.{
  Floats, RecordedAction, RecordedEvent, ReplayFailure, ReplayResult, Playing, WorkflowPlayer,
  result_new, add_failure, exact_match, label_match, resolve_element, execute_click, execute_type,
  execute_key_press, execute_scroll, dispatch_action, dispatch_event, replay_from, replay,
  bump_executed, not_found,
}

abbrev is_none {ℓ} : {A : Type ℓ} → Option A → Bool
is_none none = true
is_none (some a) = false

abbrev pub failed_at : ReplayResult → List ℕ
failed_at r = map (λ x. x.event_index) r.failures

-- The indices, counted from `i`, of the items with the property.
abbrev pub indices_where {ℓ} : {A : Type ℓ} → (A → Bool) → ℕ → List A → List ℕ
indices_where q i [] = []
indices_where q i (x ∷ xs) = let rest = indices_where q (i + 1) xs in if q x then i ∷ rest else rest

-- The items up to and including the first with the property.
abbrev pub through_first {ℓ} : {A : Type ℓ} → (A → Bool) → List A → List A
through_first q [] = []
through_first q (x ∷ xs) = let rest = through_first q xs in if q x then x ∷ [] else x ∷ rest

abbrev pub any {ℓ} : {A : Type ℓ} → (A → Bool) → List A → Bool
any q [] = false
any q (x ∷ xs) = if q x then true else any q xs

abbrev pub count_not {ℓ} : {A : Type ℓ} → (A → Bool) → List A → ℕ
count_not q [] = 0
count_not q (x ∷ xs) = let rest = count_not q xs in if q x then rest else suc rest

module _ (f : Floats) (p : Platform) (store : RefStore p) where
  abbrev waits : RecordedAction f → Bool
  waits (RecordedAction.wait ms) = true
  waits _ = false

  abbrev types : RecordedAction f → Bool
  types (RecordedAction.type text) = true
  types _ = false

  -- An event fails if it needs an element and finds none, by fingerprint or by label; one with no
  -- fingerprint recorded needs none, unless it types.
  abbrev pub fails : RecordedEvent f → Bool
  fails e =
      not (waits e.action)
      && is_none (exact_match f p e store)
      && is_none (label_match f p e store)
      && (if e.element_fingerprint == 0 then types e.action else true)

  -- An event is adapted if its element is found by the label alone.
  abbrev pub adapts : RecordedEvent f → Bool
  adapts e =
      not (waits e.action)
      && is_none (exact_match f p e store)
      && not (is_none (label_match f p e store))

  -- What the dispatch of the event at index `i` does to the result.
  record Dispatched (i : ℕ) (e : RecordedEvent f) (s : Playing) (o : Result (Unit {0}) (Unit {0}))
      (s' : Playing) : Type 0 where
    outcome : is_ok o ≡ not (fails e)
    failing : failed_at s'.result ≡ failed_at s.result ++ (if fails e then i ∷ [] else [])
    adapting :
        s'.result.adapted_events ≡ s.result.adapted_events ++ (if adapts e then i ∷ [] else [])
    success : s'.result.success ≡ (s.result.success && not (fails e))
    executed : s'.result.events_executed ≡ s.result.events_executed
    total : s'.result.total_events ≡ s.result.total_events

  record Added (i : ℕ) (r r' : ReplayResult) : Type 0 where
    failing : failed_at r' ≡ failed_at r ++ (i ∷ [])
    adapting : r'.adapted_events ≡ r.adapted_events
    success : r'.success ≡ false
    executed : r'.events_executed ≡ r.events_executed
    total : r'.total_events ≡ r.total_events

  add_failure-Added :
      (i : ℕ) (reason : String) (r : ReplayResult) → Added i r (add_failure i reason r)
  unfolding add_failure
  add_failure-Added i reason r = record {
    failing = map-append_one (λ (x : ReplayFailure). x.event_index) r.failures _;
    adapting = refl;
    success = refl;
    executed = refl;
    total = refl;
  }

  dispatch_action-Dispatched :
      (player : WorkflowPlayer f p) (a : RecordedAction f) (i : ℕ) (e : RecordedEvent f)
      (s : Playing)
      → e.action ≡ a
      → let (o, s') = dispatch_action f p player a i e store s in Dispatched i e s o s'
  unfolding dispatch_action execute_click execute_type execute_key_press execute_scroll
      resolve_element
  dispatch_action-Dispatched player (RecordedAction.wait ms) i e s h =
      ground
        (arith, append-nil (failed_at s.result), append-nil s.result.adapted_events, ap waits h)
  dispatch_action-Dispatched player (RecordedAction.click x y) i e s h = ground (
    arith,
    append-nil (failed_at s.result),
    append-nil s.result.adapted_events,
    ap waits h,
    ap types h,
    add_failure-Added i (not_found f p "Element not found" e) s.result,
  )
  dispatch_action-Dispatched player (RecordedAction.type x) i e s h = ground (
    arith,
    append-nil (failed_at s.result),
    append-nil s.result.adapted_events,
    ap waits h,
    ap types h,
    add_failure-Added i (not_found f p "Type target not found" e) s.result,
  )
  dispatch_action-Dispatched player (RecordedAction.key_press x y) i e s h = ground (
    arith,
    append-nil (failed_at s.result),
    append-nil s.result.adapted_events,
    ap waits h,
    ap types h,
    add_failure-Added i (not_found f p "KeyPress target not found" e) s.result,
  )
  dispatch_action-Dispatched player (RecordedAction.scroll x y) i e s h = ground (
    arith,
    append-nil (failed_at s.result),
    append-nil s.result.adapted_events,
    ap waits h,
    ap types h,
    add_failure-Added i (not_found f p "Scroll target not found" e) s.result,
  )

  dispatch_event-Dispatched :
      (player : WorkflowPlayer f p) (i : ℕ) (e : RecordedEvent f) (s : Playing)
      → let (o, s') = dispatch_event f p player i e store s in Dispatched i e s o s'
  unfolding dispatch_event
  dispatch_event-Dispatched player i e s = dispatch_action-Dispatched player e.action i e s refl

  -- The events that a replay looks at.
  abbrev pub visited : Bool → List (RecordedEvent f) → List (RecordedEvent f)
  visited true es = through_first fails es
  visited false es = es

  record Replayed (v : List (RecordedEvent f)) (i : ℕ) (s s' : Playing) : Type 0 where
    failing : failed_at s'.result ≡ failed_at s.result ++ indices_where fails i v
    adapting : s'.result.adapted_events ≡ s.result.adapted_events ++ indices_where adapts i v
    success : s'.result.success ≡ (s.result.success && not (any fails v))
    executed : s'.result.events_executed ≡ s.result.events_executed + count_not fails v
    total : s'.result.total_events ≡ s.result.total_events

  -- One event more in front.
  Replayed-cons :
      (e : RecordedEvent f) (v : List (RecordedEvent f)) (i : ℕ) (s s1 s2 s' : Playing)
      (o : Result (Unit {0}) (Unit {0}))
      → Dispatched i e s o s1
      → s2 ≡ (if fails e then s1 else bump_executed s1)
      → Replayed v (i + 1) s2 s'
      → Replayed (e ∷ v) i s s'
  Replayed-cons e v i s s1 s2 s' o d q r = ground (
    arith,
    append_assoc (failed_at s.result) (i ∷ []) (indices_where fails (i + 1) v),
    append_assoc s.result.adapted_events (i ∷ []) (indices_where adapts (i + 1) v),
    append-nil (failed_at s.result),
    append-nil s.result.adapted_events,
  )

  Replayed-stop :
      (e : RecordedEvent f) (i : ℕ) (s s1 : Playing) (o : Result (Unit {0}) (Unit {0}))
      → Dispatched i e s o s1
      → fails e ≡ true
      → Replayed (e ∷ []) i s s1
  Replayed-stop e i s s1 o d q = ground arith

  -- The loop, on each outcome of the dispatch.
  replay_from-ok :
      (player : WorkflowPlayer f p) (e : RecordedEvent f) (es : List (RecordedEvent f)) (i : ℕ)
      (s : Playing)
      → is_ok (dispatch_event f p player i e store s).0 ≡ true
      → replay_from f p player store i (e ∷ es) s
        ≡ replay_from f p player store
            (i + 1)
            es
            (bump_executed (dispatch_event f p player i e store s).1)
  unfolding replay_from
  replay_from-ok player e es i s h = ground arith

  replay_from-err :
      (player : WorkflowPlayer f p) (e : RecordedEvent f) (es : List (RecordedEvent f)) (i : ℕ)
      (s : Playing)
      → is_ok (dispatch_event f p player i e store s).0 ≡ false
      → replay_from f p player store i (e ∷ es) s ≡ (
          if player.abort_on_failure
          then (dispatch_event f p player i e store s).1
          else replay_from f p player store (i + 1) es (dispatch_event f p player i e store s).1)
  unfolding replay_from
  replay_from-err player e es i s h = ground arith

  replay_from-Replayed :
      (abort : Bool) (player : WorkflowPlayer f p) (es : List (RecordedEvent f)) (i : ℕ)
      (s : Playing)
      → player.abort_on_failure ≡ abort
      → Replayed (visited abort es) i s (replay_from f p player store i es s)
  unfolding replay_from
  replay_from-Replayed true player [] i s h =
      ground (arith, append-nil (failed_at s.result), append-nil s.result.adapted_events)
  replay_from-Replayed false player [] i s h =
      ground (arith, append-nil (failed_at s.result), append-nil s.result.adapted_events)
  replay_from-Replayed abort player (e ∷ es) i s h =
      split abort (fails e) refl h (replay_from-Replayed abort player es (i + 1))
    where
      s1 : Playing
      s1 = (dispatch_event f p player i e store s).1

      d : Dispatched i e s (dispatch_event f p player i e store s).0 s1
      d = dispatch_event-Dispatched player i e s

      at :
          {v : List (RecordedEvent f)} {x : Playing} (v' : List (RecordedEvent f)) (x' : Playing)
          → v ≡ v'
          → x ≡ x'
          → Replayed v' i s x'
          → Replayed v i s x
      at v' x' p q r = subst₂ (λ v x. Replayed v i s x) (sym p) (sym q) r

      split :
          (abort fail : Bool)
          → fails e ≡ fail
          → player.abort_on_failure ≡ abort
          → ((s2 : Playing)
              → player.abort_on_failure ≡ abort
              → Replayed (visited abort es) (i + 1) s2 (replay_from f p player store (i + 1) es s2))
          → Replayed (visited abort (e ∷ es)) i s (replay_from f p player store i (e ∷ es) s)
      split true true q h ih =
          at (e ∷ []) s1 (rw q refl)
            (replay_from-err player e es i s (d.outcome ∙ ap not q) ∙ rw h refl)
            (Replayed-stop e i s s1 _ d q)
      split false true q h ih =
          at (e ∷ es) (replay_from f p player store (i + 1) es s1) refl
            (replay_from-err player e es i s (d.outcome ∙ ap not q) ∙ rw h refl)
            (Replayed-cons e es i s s1 s1 _ _ d (rw q refl) (ih s1 h))
      split true false q h ih =
          at (e ∷ through_first fails es)
            (replay_from f p player store (i + 1) es (bump_executed s1)) (rw q refl)
            (replay_from-ok player e es i s (d.outcome ∙ ap not q))
            (Replayed-cons e (through_first fails es) i s s1 (bump_executed s1) _ _ d (rw q refl)
              (ih _ h))
      split false false q h ih =
          at (e ∷ es) (replay_from f p player store (i + 1) es (bump_executed s1)) refl
            (replay_from-ok player e es i s (d.outcome ∙ ap not q))
            (Replayed-cons e es i s s1 (bump_executed s1) _ _ d (rw q refl) (ih _ h))

  -- A replay looks at every event, or with `abort_on_failure` at those up to and including the first
  -- that fails. The result reports exactly the indices of the failing and of the adapted events among
  -- them, in order; the number executed is that of the others; it is a success exactly when none
  -- fails; and the total is the number of all events.
  pub replay_lem :
      (player : WorkflowPlayer f p) (events : List (RecordedEvent f))
      → let r = (replay f p player events store).result in
        let v = visited player.abort_on_failure events in
        (failed_at r ≡ indices_where fails 0 v)
        × (r.adapted_events ≡ indices_where adapts 0 v)
        × (r.events_executed ≡ count_not fails v)
        × (r.success ≡ not (any fails v))
        × (r.total_events ≡ length events)
  unfolding replay result_new
  replay_lem player events =
      let x =
        replay_from-Replayed player.abort_on_failure player events 0
          (record { result = result_new (length events); slept = [] }) refl in
      (x.failing, x.adapting, x.executed ∙ omega arith, x.success, x.total)
