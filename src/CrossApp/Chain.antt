-- ===== src/CrossApp/Chain.antt =====
-- src/cross_app.rs, `record_focus`: what the tracker knows after some focus events.
use axterminator.Prelude.{
  ℕ, ◌≡◌, refl, sym, ap, ap₂, subst, ◌∙◌, String, false, Option, none, some, List, [], ◌∷◌, ◌++◌,
  map, str_eq, get_last?, get_last?-append_one, map-append_one, All, All-append, arith,
}
use mathlib.Core.List.{append_assoc, append-nil}
use axterminator.Prelude.TextMaps
use axterminator.Prelude.TextMaps.{lookup-insert}
use axterminator.CrossApp.Tracks.{
  FocusEvent, record_all, names, Agrees, Logged, Tracks, Counted, Agrees-flush_dwell_time,
  Counted-defocus, Agrees-focus,
}
use axterminator.CrossApp.Apps.{lookup-change_app, lookup-focus_app}
use axterminator.CrossApp.{
  TransitionTrigger, AppState, AppTransition, CrossAppTracker, tracker_new, change_app,
  flush_dwell_time, defocus, unwrap_or_default, defocus_previous, push_transition, record_focus,
}

flush_dwell_time-current :
    (now : ℕ) (t : CrossAppTracker) → (flush_dwell_time now t).current_app ≡ t.current_app
unfolding flush_dwell_time
flush_dwell_time-current now t = split t.current_app refl
  where
    split :
        (o : Option String)
        → t.current_app ≡ o
        → (flush_dwell_time now t).current_app ≡ t.current_app
    split none e = rw (e, flush_dwell_time) e
    split (some c) e = rw (e, flush_dwell_time) e

flush_dwell_time-transitions :
    (now : ℕ) (t : CrossAppTracker) → (flush_dwell_time now t).transitions ≡ t.transitions
unfolding flush_dwell_time
flush_dwell_time-transitions now t = split t.current_app refl
  where
    split :
        (o : Option String)
        → t.current_app ≡ o
        → (flush_dwell_time now t).transitions ≡ t.transitions
    split none e = rw (e, flush_dwell_time) refl
    split (some c) e = rw (e, flush_dwell_time) refl

abbrev pub NonEmpty : String → Type 0
NonEmpty n = str_eq n "" ≡ false

NonEmpty-last :
    (ns : List String) (last : String) → All NonEmpty ns → get_last? ns ≡ some last → NonEmpty last
NonEmpty-last [] last h e = absurd (ground (arith, e))
NonEmpty-last (n ∷ []) last (h, _) e = ground (arith, h, e)
NonEmpty-last (n ∷ m ∷ ns) last (_, h) e = NonEmpty-last (m ∷ ns) last h e

-- The new transitions, of what the old tracker had.
transitions-record_focus :
    (app : String) (trigger : TransitionTrigger) (now : ℕ) (t : CrossAppTracker)
    → (record_focus app trigger now t).transitions
      ≡ push_transition app trigger now t.current_app t.transitions
unfolding record_focus
transitions-record_focus app trigger now t =
    ap₂ (push_transition app trigger now) (flush_dwell_time-current now t)
      (flush_dwell_time-transitions now t)

Logged-record_focus :
    (ns : List String) (app : String) (trigger : TransitionTrigger) (now : ℕ) (t : CrossAppTracker)
    → Logged ns t
    → Logged (ns ++ (app ∷ [])) (record_focus app trigger now t)
unfolding record_focus push_transition
Logged-record_focus [] app trigger now t (c, e) =
    let ts : (record_focus app trigger now t).transitions ≡ [] =
      transitions-record_focus app trigger now t ∙ rw (c, e) refl in
    (
      app,
      refl,
      refl,
      ap (map (λ (x : AppTransition). x.to_app)) ts,
      ap (λ xs. map (λ (x : AppTransition). x.from_app) xs ++ (app ∷ [])) ts,
    )
Logged-record_focus (n ∷ ns) app trigger now t (last, c, l, to, from) =
    let new : AppTransition = record {
      from_app = last;
      to_app = app;
      timestamp = now;
      trigger = trigger;
    } in
    let ts : (record_focus app trigger now t).transitions ≡ t.transitions ++ (new ∷ []) =
      transitions-record_focus app trigger now t ∙ rw c refl in
    (
      app,
      refl,
      get_last?-append_one (n ∷ ns) app,
      ap (map (λ (x : AppTransition). x.to_app)) ts
          ∙ map-append_one (λ (x : AppTransition). x.to_app) t.transitions new
          ∙ ap (λ xs. xs ++ (app ∷ [])) to,
      ap (λ xs. map (λ (x : AppTransition). x.from_app) xs ++ (app ∷ [])) ts
          ∙ ap (λ xs. xs ++ (app ∷ []))
              (map-append_one (λ (x : AppTransition). x.from_app) t.transitions new ∙ from),
    )

Counted-defocus_previous :
    (ns : List String) (a : String) (t : CrossAppTracker) (apps : List (String × AppState))
    → All NonEmpty ns
    → Logged ns t
    → Agrees ns a (TextMaps.lookup a apps)
    → Counted ns a (TextMaps.lookup a (defocus_previous (unwrap_or_default t.current_app) apps))
unfolding defocus_previous
Counted-defocus_previous [] a t apps n (c, _) h =
    rw (c, defocus_previous) (none_seen (TextMaps.lookup a apps) h)
  where
    none_seen : (o : Option AppState) → Agrees [] a o → Counted [] a o
    none_seen none h = h
    none_seen (some state) (m, _, _) = absurd (omega (arith, m))
Counted-defocus_previous (m ∷ ns) a t apps n (last, c, l, _, _) h =
    let left : defocus_previous (unwrap_or_default t.current_app) apps
        ≡ change_app last defocus apps =
      rw (c, NonEmpty-last (m ∷ ns) last n l, defocus_previous) refl in
    subst (Counted (m ∷ ns) a)
      (sym (ap (TextMaps.lookup a) left ∙ lookup-change_app last a defocus apps))
      (Counted-defocus (m ∷ ns) a last (str_eq last a) (TextMaps.lookup a apps) l refl h)

Tracks-record_focus :
    (ns : List String) (app : String) (trigger : TransitionTrigger) (now : ℕ) (t : CrossAppTracker)
    → All NonEmpty ns
    → Tracks ns t
    → Tracks (ns ++ (app ∷ [])) (record_focus app trigger now t)
unfolding record_focus
Tracks-record_focus ns app trigger now t n (l, h) =
    (Logged-record_focus ns app trigger now t l, agrees)
  where
    agrees :
        (a : String)
        → Agrees (ns ++ (app ∷ [])) a (TextMaps.lookup a (record_focus app trigger now t).apps)
    agrees a =
        let flushed = flush_dwell_time now t in
        let counted =
          Counted-defocus_previous ns a t flushed.apps n l
            (Agrees-flush_dwell_time ns a now t (h a)) in
        let moved : Counted ns a (
            TextMaps.lookup a
              (defocus_previous (unwrap_or_default flushed.current_app) flushed.apps)) =
          subst
            (λ o.
              Counted ns a
                (TextMaps.lookup a (defocus_previous (unwrap_or_default o) flushed.apps)))
            (sym (flush_dwell_time-current now t)) counted in
        subst (Agrees (ns ++ (app ∷ [])) a)
          (sym (
            lookup-focus_app app a
              (defocus_previous (unwrap_or_default flushed.current_app) flushed.apps)))
          (Agrees-focus ns app a (str_eq app a) _ refl moved)

Tracks-record_all :
    (es : List FocusEvent) (ns : List String) (t : CrossAppTracker)
    → All NonEmpty ns
    → All NonEmpty (names es)
    → Tracks ns t
    → Tracks (ns ++ names es) (record_all es t)
Tracks-record_all [] ns t n m h = subst (λ xs. Tracks xs t) (sym (append-nil ns)) h
Tracks-record_all ((app, (trigger, now)) ∷ es) ns t n (p, m) h =
    subst (λ xs. Tracks xs (record_all es (record_focus app trigger now t)))
      (append_assoc ns (app ∷ []) (names es))
      (Tracks-record_all es (ns ++ (app ∷ [])) (record_focus app trigger now t)
        (All-append NonEmpty ns (app ∷ []) n (p, tt)) m
        (Tracks-record_focus ns app trigger now t n h))

-- After any focus events of apps whose names are not empty: exactly the apps of the events are known,
-- each with the number of its events, modulo 2^64; the last one, and no other, is in focus; and the
-- transitions lead from each event's app to that of the next.
pub record_all-Tracks :
    (es : List FocusEvent) → All NonEmpty (names es) → Tracks (names es) (record_all es tracker_new)
unfolding tracker_new TextMaps.lookup
record_all-Tracks es n = Tracks-record_all es [] tracker_new tt n ((refl, refl), λ a. refl)
