-- ===== src/Recording/Resolve.antt =====
-- src/recording.rs, `resolve_element`: what a replayed event may be resolved to.
use axterminator.Prelude.{
  ℕ, ◌≡◌, ◌≢◌, refl, sym, ◌∙◌, ◌⊎◌, inl, inr, true, false, Option, none, some, List, [], ◌∷◌, ◌++◌,
  arith, keep, is_infix, str_eq_iff, All,
}
use axterminator.Prelude.Maps.{values}
use axterminator.Refs.{Platform, RefStore, ElementRef, find_by_label, resolve_by_fingerprint}
use axterminator.Recording.{
  Floats, RecordedEvent, ReplayResult, exact_match, label_match, resolve_element, find_role,
}

module _ (f : Floats) (p : Platform) (store : RefStore p) (e : RecordedEvent f) where
  -- A candidate of the second strategy: alive, with the recorded role, its label containing the
  -- recorded one (compared in lower case).
  pub record Matches (r : ElementRef p) : Type 0 where
    pub alive : r.alive ≡ true
    pub role : r.role ≡ e.element_role
    pub label : is_infix (p.lower e.element_label) (p.lower r.label) ≡ true

  candidate : List (ElementRef p) → Option (ElementRef p)
  candidate rs =
      find_role f p e.element_role
        (keep (λ r. r.alive) (keep (λ r. is_infix (p.lower e.element_label) (p.lower r.label)) rs))

  candidate-some : (rs : List (ElementRef p)) (r : ElementRef p) → candidate rs ≡ some r → Matches r
  unfolding candidate
  candidate-some [] r h = absurd (ground arith)
  candidate-some (x ∷ rs) r h =
      ground (arith, candidate-some rs r, str_eq_iff x.role e.element_role)

  candidate-none : (rs : List (ElementRef p)) → candidate rs ≡ none → All (λ r. ¬ Matches r) rs
  unfolding candidate
  candidate-none [] h = tt
  candidate-none (x ∷ rs) h = (
    λ m. ground (arith, str_eq_iff x.role e.element_role, m.alive, m.role, m.label),
    candidate-none rs (ground (arith, str_eq_iff x.role e.element_role)),
  )

  abbrev pub IsResolution : ℕ → ReplayResult → Option (ElementRef p) → ReplayResult → Type 0
  IsResolution index result (some r) result' =
      (r.alive ≡ true)
      × (((e.element_fingerprint ≢ 0)
            × (resolve_by_fingerprint p e.element_fingerprint store ≡ some r)
            × (result' ≡ result))
          ⊎ (((r' : ElementRef p)
                → e.element_fingerprint ≢ 0
                → resolve_by_fingerprint p e.element_fingerprint store ≡ some r'
                → r'.alive ≡ false)
              × Matches r
              × (result'
                  ≡ record result { adapted_events = result.adapted_events ++ (index ∷ []) })))
  IsResolution index result none result' =
      (result' ≡ result)
      × All (λ r. ¬ Matches r) (values store.refs)
      × ((r : ElementRef p)
          → e.element_fingerprint ≢ 0
          → resolve_by_fingerprint p e.element_fingerprint store ≡ some r
          → r.alive ≡ false)

  label_match-candidate : label_match f p e store ≡ candidate (values store.refs)
  unfolding label_match candidate find_by_label
  label_match-candidate = refl

  exact_match-some :
      (r : ElementRef p)
      → exact_match f p e store ≡ some r
      → (r.alive ≡ true)
        × (e.element_fingerprint ≢ 0)
        × (resolve_by_fingerprint p e.element_fingerprint store ≡ some r)
  unfolding exact_match
  exact_match-some r h = ground arith

  exact_match-none :
      (r : ElementRef p)
      → exact_match f p e store ≡ none
      → e.element_fingerprint ≢ 0
      → resolve_by_fingerprint p e.element_fingerprint store ≡ some r
      → r.alive ≡ false
  unfolding exact_match
  exact_match-none r h ne k = ground arith

  -- What an event resolves to is alive. It is the reference that the recorded fingerprint, not 0,
  -- leads to, and then the result is unchanged; or that fingerprint leads to no live reference, it is
  -- one that has the recorded role and whose label contains the recorded one, compared in lower case,
  -- and then the event is added to the adapted ones. Nothing is
  -- found, and nothing changed, only if no stored reference matches by role and label and the
  -- recorded fingerprint leads to no live reference.
  pub resolve_element-IsResolution :
      (index : ℕ) (result : ReplayResult)
      → let (o, result') = resolve_element f p e store index result in
        IsResolution index result o result'
  unfolding resolve_element
  resolve_element-IsResolution index result =
      split (exact_match f p e store) (label_match f p e store) refl refl
    where
      split :
          (x y : Option (ElementRef p))
          → exact_match f p e store ≡ x
          → label_match f p e store ≡ y
          → let (o, result') = resolve_element f p e store index result in
            IsResolution index result o result'
      split (some r) y h k =
          let (live, ne, at) = exact_match-some r h in
          rw (h, resolve_element) (live, inl (ne, at, refl))
      split none (some r) h k =
          let m : Matches r =
            candidate-some (values store.refs) r (sym label_match-candidate ∙ k) in
          rw (h, k, resolve_element) (m.alive, inr (λ r'. exact_match-none r' h, m, refl))
      split none none h k =
          rw (h, k, resolve_element)
            (
              refl,
              candidate-none (values store.refs) (sym label_match-candidate ∙ k),
              λ r. exact_match-none r h,
            )
