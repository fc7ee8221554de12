-- ===== src/CrossApp/Tracks.antt =====
-- src/cross_app.rs: what a tracker that has seen some apps come into focus holds, and how the parts
-- of `record_focus` change it.
use axterminator.Prelude.{
  ℕ, suc, ◌-◌, ◌^◌, ◌%◌, ◌≤◌, ◌≡◌, refl, sym, ap, subst, ◌∙◌, String, Bool, true, false, Option,
  none, some, List, [], ◌∷◌, ◌++◌, map, if◌then◌else◌, str_eq, get_last?, get_last?-append_one,
  map_option, arith,
}
use axterminator.Prelude.TextMaps
use axterminator.Prelude.TextMaps.{lookup-insert}
use axterminator.CrossApp.Apps.{lookup-change_app, known}
use axterminator.CrossApp.{
  TransitionTrigger, AppState, app_state_new, AppTransition, CrossAppTracker, credit,
  flush_dwell_time, defocus, focus, record_focus,
}

-- A focus event: the app, what caused it, and the time.
abbrev pub FocusEvent : Type 0
FocusEvent = String × (TransitionTrigger × ℕ)

abbrev pub record_all : List FocusEvent → CrossAppTracker → CrossAppTracker
record_all [] t = t
record_all ((app, (trigger, now)) ∷ es) t = record_all es (record_focus app trigger now t)

abbrev pub names : List FocusEvent → List String
names es = map (λ (e : FocusEvent). e.0) es

abbrev pub times_named : String → List String → ℕ
times_named a [] = 0
times_named a (b ∷ bs) = let rest = times_named a bs in if str_eq b a then suc rest else rest

abbrev pub is_last : String → Option String → Bool
is_last a none = false
is_last a (some b) = str_eq b a

-- An app is known if it has been focused; its count is the number of times, and it is in focus if it
-- was the last.
abbrev pub Agrees : List String → String → Option AppState → Type 0
Agrees ns a none = times_named a ns ≡ 0
Agrees ns a (some state) =
    (1 ≤ times_named a ns)
    × (state.focus_count ≡ times_named a ns % 2 ^ 64)
    × (state.focused ≡ is_last a (get_last? ns))

-- The transitions lead from each app to the next.
abbrev pub Logged : List String → CrossAppTracker → Type 0
Logged [] t = (t.current_app ≡ none) × (t.transitions ≡ [])
Logged (n ∷ ns) t =
    (last : String) × (t.current_app ≡ some last)
    × (get_last? (n ∷ ns) ≡ some last)
    × (map (λ (x : AppTransition). x.to_app) t.transitions ≡ ns)
    × (map (λ (x : AppTransition). x.from_app) t.transitions ++ (last ∷ []) ≡ n ∷ ns)

abbrev pub Tracks : List String → CrossAppTracker → Type 0
Tracks ns t = Logged ns t × ((a : String) → Agrees ns a (TextMaps.lookup a t.apps))

pub times_named-append :
    (a b : String) (ns : List String)
    → times_named a (ns ++ (b ∷ []))
      ≡ (if str_eq b a then suc (times_named a ns) else times_named a ns)
times_named-append a b [] = ground arith
times_named-append a b (n ∷ ns) = ground (arith, times_named-append a b ns)

Agrees-credit :
    (ns : List String) (a : String) (elapsed : ℕ) (o : Option AppState)
    → Agrees ns a o
    → Agrees ns a (map_option (credit elapsed) o)
unfolding credit
Agrees-credit ns a elapsed none h = h
Agrees-credit ns a elapsed (some state) h = h

pub Agrees-flush_dwell_time :
    (ns : List String) (a : String) (now : ℕ) (t : CrossAppTracker)
    → Agrees ns a (TextMaps.lookup a t.apps)
    → Agrees ns a (TextMaps.lookup a (flush_dwell_time now t).apps)
unfolding flush_dwell_time
Agrees-flush_dwell_time ns a now t h = split t.current_app refl
  where
    elapsed : ℕ
    elapsed = now - t.current_focus_start_ms

    credited :
        (c : String) (b : Bool)
        → str_eq c a ≡ b
        → Agrees ns a (
            if b
            then map_option (credit elapsed) (TextMaps.lookup a t.apps)
            else TextMaps.lookup a t.apps)
    credited c true e = Agrees-credit ns a elapsed (TextMaps.lookup a t.apps) h
    credited c false e = h

    split :
        (o : Option String)
        → t.current_app ≡ o
        → Agrees ns a (TextMaps.lookup a (flush_dwell_time now t).apps)
    split none e = rw (e, flush_dwell_time) h
    split (some c) e =
        rw (e, flush_dwell_time)
          (subst (Agrees ns a) (sym (lookup-change_app c a (credit elapsed) t.apps))
            (credited c (str_eq c a) refl))

-- An app that agrees but for being out of focus.
abbrev pub Counted : List String → String → Option AppState → Type 0
Counted ns a none = times_named a ns ≡ 0
Counted ns a (some state) =
    (1 ≤ times_named a ns)
    × (state.focus_count ≡ times_named a ns % 2 ^ 64)
    × (state.focused ≡ false)

pub Counted-defocus :
    (ns : List String) (a last : String) (b : Bool) (o : Option AppState)
    → get_last? ns ≡ some last
    → str_eq last a ≡ b
    → Agrees ns a o
    → Counted ns a (if b then map_option defocus o else o)
unfolding defocus
Counted-defocus ns a last true none l e h = h
Counted-defocus ns a last false none l e h = h
Counted-defocus ns a last true (some state) l e (m, c, f) = (m, c, refl)
Counted-defocus ns a last false (some state) l e (m, c, f) = (m, c, f ∙ ap (is_last a) l ∙ e)

pub Agrees-focus :
    (ns : List String) (app a : String) (b : Bool) (o : Option AppState)
    → str_eq app a ≡ b
    → Counted ns a o
    → Agrees (ns ++ (app ∷ [])) a (if b then some (focus (known app o)) else o)
unfolding focus app_state_new
Agrees-focus ns app a true none e h =
    ground (arith, e, h, times_named-append a app ns, get_last?-append_one ns app)
Agrees-focus ns app a false none e h = ground (arith, e, h, times_named-append a app ns)
Agrees-focus ns app a true (some state) e (m, c, f) =
    let n : times_named a (ns ++ (app ∷ [])) ≡ suc (times_named a ns) =
      times_named-append a app ns ∙ rw e refl in
    (
      omega (arith, n),
      omega (arith, n, c),
      sym e ∙ sym (ap (is_last a) (get_last?-append_one ns app)),
    )
Agrees-focus ns app a false (some state) e (m, c, f) =
    let n : times_named a (ns ++ (app ∷ [])) ≡ times_named a ns =
      times_named-append a app ns ∙ rw e refl in
    (
      omega (arith, n, m),
      omega (arith, n, c),
      f ∙ sym e ∙ sym (ap (is_last a) (get_last?-append_one ns app)),
    )
