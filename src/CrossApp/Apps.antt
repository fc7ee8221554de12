-- ===== src/CrossApp/Apps.antt =====
-- src/cross_app.rs: the table of the apps after its changes.
use axterminator.Prelude.{
  ◌≡◌, refl, ap, subst, ◌∙◌, String, Bool, true, false, Option, none, some, List, if◌then◌else◌,
  str_eq, str_eq_iff, map_option, arith,
}
use axterminator.Prelude.TextMaps
use axterminator.Prelude.TextMaps.{lookup-insert}
use axterminator.CrossApp.{AppState, app_state_new, change_app, focus, focus_app}

lookup_same :
    (a b : String) (apps : List (String × AppState)) (o : Option AppState)
    → TextMaps.lookup a apps ≡ o
    → str_eq a b ≡ true
    → TextMaps.lookup b apps ≡ o
lookup_same a b apps o e h = subst (λ c. TextMaps.lookup c apps ≡ o) ((str_eq_iff a b).0 h) e

change_app-known :
    (a : String) (f : AppState → AppState) (apps : List (String × AppState)) (o : Option AppState)
    → TextMaps.lookup a apps ≡ o
    → change_app a f apps ≡ (elim o [ none ↦ apps | some state ↦ TextMaps.insert a (f state) apps ])
unfolding change_app
change_app-known a f apps o e =
    ap
      (λ (o : Option AppState). elim o [
        | none ↦ apps
        | some state ↦ TextMaps.insert a (f state) apps
      ])
      e

pub lookup-change_app :
    (a b : String) (f : AppState → AppState) (apps : List (String × AppState))
    → TextMaps.lookup b (change_app a f apps)
      ≡ (if str_eq a b then map_option f (TextMaps.lookup b apps) else TextMaps.lookup b apps)
lookup-change_app a b f apps = split (TextMaps.lookup a apps) refl
  where
    split :
        (o : Option AppState)
        → TextMaps.lookup a apps ≡ o
        → TextMaps.lookup b (change_app a f apps)
          ≡ (if str_eq a b then map_option f (TextMaps.lookup b apps) else TextMaps.lookup b apps)
    split none e =
        ap (TextMaps.lookup b) (change_app-known a f apps none e)
        ∙ ground (arith, lookup_same a b apps none e)
    split (some state) e =
        ap (TextMaps.lookup b) (change_app-known a f apps (some state) e)
        ∙ lookup-insert a b (f state) apps
        ∙ ground (arith, lookup_same a b apps (some state) e)

abbrev pub known : String → Option AppState → AppState
known a none = app_state_new a
known a (some state) = state

focus_app-known :
    (a : String) (apps : List (String × AppState)) (o : Option AppState)
    → TextMaps.lookup a apps ≡ o
    → focus_app a apps ≡ TextMaps.insert a (focus (known a o)) apps
unfolding focus_app
focus_app-known a apps none e = rw (e, focus_app) refl
focus_app-known a apps (some state) e = rw (e, focus_app) refl

pub lookup-focus_app :
    (a b : String) (apps : List (String × AppState))
    → TextMaps.lookup b (focus_app a apps) ≡ (
        if str_eq a b
        then some (focus (known a (TextMaps.lookup b apps)))
        else TextMaps.lookup b apps)
lookup-focus_app a b apps =
    ap (TextMaps.lookup b) (focus_app-known a apps (TextMaps.lookup a apps) refl)
    ∙ lookup-insert a b (focus (known a (TextMaps.lookup a apps))) apps
    ∙ split (str_eq a b) refl
  where
    split :
        (c : Bool)
        → str_eq a b ≡ c
        → (if str_eq a b
            then some (focus (known a (TextMaps.lookup a apps)))
            else TextMaps.lookup b apps)
          ≡ (if str_eq a b
              then some (focus (known a (TextMaps.lookup b apps)))
              else TextMaps.lookup b apps)
    split false h = rw h refl
    split true h = rw (h, (str_eq_iff a b).0 h) refl
