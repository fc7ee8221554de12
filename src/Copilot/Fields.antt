-- ===== src/Copilot/Fields.antt =====
-- src/copilot_state.rs: the comparison of one field.
use axterminator.Prelude.{
  ◌≡◌, refl, ap, ap₂, subst, ◌↔◌, String, Bool, true, false, Option, none, some, List, [], ◌∷◌,
  ◌++◌, str_eq_iff, arith,
}
use axterminator.Copilot.{StateChange, opt_eq, list_eq, field_eq, change, diff_by}

-- A test that decides equality.
abbrev Decides : {A : Type 0} → (A → A → Bool) → Type 0
Decides {A} eq = (a b : A) → (eq a b ≡ true) ↔ (a ≡ b)

pub opt_eq-Decides : {A : Type 0} (eq : A → A → Bool) → Decides eq → Decides (opt_eq eq)
unfolding opt_eq
opt_eq-Decides eq d a b = (forth a b, λ e. subst (λ c. opt_eq eq a c ≡ true) e (same a))
  where
    forth : (a b : Option _) → opt_eq eq a b ≡ true → a ≡ b
    forth none none h = refl
    forth none (some y) h = absurd (ground (arith, h))
    forth (some x) none h = absurd (ground (arith, h))
    forth (some x) (some y) h = ap some ((d x y).0 h)

    same : (a : Option _) → opt_eq eq a a ≡ true
    same none = refl
    same (some x) = (d x x).1 refl

pub list_eq-Decides : {A : Type 0} (eq : A → A → Bool) → Decides eq → Decides (list_eq eq)
unfolding list_eq
list_eq-Decides eq d a b = (forth eq d a b, λ e. subst (λ c. list_eq eq a c ≡ true) e (same eq d a))
  where
    forth :
        {A : Type 0} (eq : A → A → Bool)
        → Decides eq
        → (a b : List A) → list_eq eq a b ≡ true
        → a ≡ b
    forth eq d [] [] h = refl
    forth eq d [] (y ∷ b) h = absurd (ground (arith, h))
    forth eq d (x ∷ a) [] h = absurd (ground (arith, h))
    forth eq d (x ∷ a) (y ∷ b) h =
        ap₂ ◌∷◌ ((d x y).0 (ground (arith, h))) (forth eq d a b (ground (arith, h)))

    same : {A : Type 0} (eq : A → A → Bool) → Decides eq → (a : List A) → list_eq eq a a ≡ true
    same eq d [] = refl
    same eq d (x ∷ a) = ground (arith, (d x x).1 refl, same eq d a)

pub field_eq-Decides : Decides field_eq
unfolding field_eq
field_eq-Decides (a, x) (b, y) = (
  λ h.
      ap₂ (λ a x. (a, x)) ((str_eq_iff a b).0 (ground (arith, h)))
        ((str_eq_iff x y).0 (ground (arith, h))),
  λ e. ground (arith, (str_eq_iff a b).1 (ap (λ q. q.0) e), (str_eq_iff x y).1 (ap (λ q. q.1) e)),
)

-- A field adds nothing exactly if it is the same.
module _ {A : Type 0} (eq : A → A → Bool) (d : Decides eq) (print : A → String)
    (field : String) where
  pub diff_by-empty :
      (old new : A) (changes : List StateChange)
      → (diff_by eq print field old new changes ≡ []) ↔ ((old ≡ new) × (changes ≡ []))
  unfolding diff_by
  diff_by-empty old new changes = (λ h. forth (eq old new) refl h, λ q. rw ((d old new).1 q.0) q.1)
    where
      forth :
          (b : Bool)
          → eq old new ≡ b
          → diff_by eq print field old new changes ≡ []
          → (old ≡ new) × (changes ≡ [])
      forth true e h = ((d old new).0 e, ground (arith, e, h))
      forth false e h = absurd (nonempty changes (ground (arith, e, h)))
        where
          nonempty : (cs : List StateChange) → ¬ (cs ++ (change print field old new ∷ []) ≡ [])
          nonempty [] h = ground (arith, h)
          nonempty (c ∷ cs) h = ground (arith, h)
