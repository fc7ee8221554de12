-- ===== src/Instructions/Facts.antt =====
-- src/instruction_sources.rs, `select_ui_fact`: which fact is chosen, and what it overrides.
use axterminator.Prelude.{
  ℕ, ◌≤◌, ◌<◌, ◌≡◌, refl, sym, subst, ◌∙◌, Bool, true, false, not, Option, none, some, List, ◌∷◌,
  ◌++◌, All, arith, trim, keep, String,
}
use axterminator.Instructions.{
  InstructionSource, SourceCandidate, SourceDecision, max_by_key, ui_fact_rank, speaks, rivals,
  decision, fact_reason, select_ui_fact, same_source, same_instruction,
}
use axterminator.Instructions.Maximum.{All-map, IsLastMax, Maximal, max_by_key-Maximal, keep-keep}
use axterminator.Instructions.Authority.{
  above, above-rank, Speaks, speaks-Speaks, Speaks-speaks, Contests, contests, contests-Contests,
  Contests-contests,
}

abbrev rank : SourceCandidate → ℕ
rank c = ui_fact_rank c.source

module _ (P : SourceCandidate → Type 0) where
  -- Of the candidates with a property, it is the last of those that none has authority over.
  pub record IsFirstChoice (candidates : List SourceCandidate) (c : SourceCandidate) : Type 0 where
    pub before : List SourceCandidate
    pub after : List SourceCandidate
    pub split : candidates ≡ before ++ (c ∷ after)
    pub own : P c
    pub earlier : All (λ x. P x → above x.source c.source ≡ false) before
    pub later : All (λ x. P x → above c.source x.source ≡ true) after

  module _ (p : SourceCandidate → Bool) (sound : (c : SourceCandidate) → p c ≡ true → P c)
      (complete : (c : SourceCandidate) → P c → p c ≡ true) where
    first_choice :
        (cs : List SourceCandidate) (c : SourceCandidate)
        → IsLastMax rank p cs c
        → IsFirstChoice cs c
    first_choice cs c i = record {
      before = i.before;
      after = i.after;
      split = i.split;
      own = sound c i.own;
      earlier =
          All-map (λ x. p x ≡ true → rank x ≤ rank c) (λ x. P x → above x.source c.source ≡ false)
            (λ x f h.
              let l : rank x ≤ rank c = f (complete x h) in
              sym (above-rank x.source c.source) ∙ ground (arith, l))
            i.before i.earlier;
      later =
          All-map (λ x. p x ≡ true → rank x < rank c) (λ x. P x → above c.source x.source ≡ true)
            (λ x f h.
              let l : rank x < rank c = f (complete x h) in
              sym (above-rank c.source x.source) ∙ ground (arith, l))
            i.after i.later;
    }

    no_choice : (cs : List SourceCandidate) → All (λ x. p x ≡ false) cs → All (λ x. ¬ P x) cs
    no_choice cs h =
        All-map (λ x. p x ≡ false) (λ x. ¬ P x)
          (λ x e k. let q : p x ≡ true = complete x k in absurd (ground (arith, e, q))) cs h

-- The reason that goes with a source.
abbrev pub Reason : InstructionSource → String → Type 0
Reason InstructionSource.ax_api r =
    r ≡ "AX API facts have higher authority than app-dialog or screen-vision facts"
Reason InstructionSource.app_dialog r =
    r ≡ "app-dialog facts have higher authority than screen-vision facts when AX is absent"
Reason InstructionSource.screen_vision r =
    r ≡ "screen vision is used only when no higher UI fact exists"
Reason _ r = r ≡ "instruction sources are not UI facts; preserve supplied order"

fact_reason-Reason : (s : InstructionSource) → Reason s (fact_reason s)
unfolding fact_reason
fact_reason-Reason InstructionSource.ax_api = refl
fact_reason-Reason InstructionSource.app_dialog = refl
fact_reason-Reason InstructionSource.screen_vision = refl
fact_reason-Reason InstructionSource.human_user_prompt = refl
fact_reason-Reason InstructionSource.agent_tool_args = refl
fact_reason-Reason InstructionSource.human_tool_args = refl

module _ (to_lowercase : List ℕ → List ℕ) where
  abbrev pub Overrides : SourceCandidate → List SourceCandidate → Option InstructionSource → Type 0
  Overrides c candidates none = All (λ r. ¬ Contests to_lowercase c r) candidates
  Overrides c candidates (some s) =
      (r : SourceCandidate) × (s ≡ r.source) × IsFirstChoice (Contests to_lowercase c) candidates r

  abbrev pub Decided : List SourceCandidate → Option SourceDecision → Type 0
  Decided candidates none = All (λ c. ¬ Speaks c) candidates
  Decided candidates (some d) =
      (c : SourceCandidate) × IsFirstChoice Speaks candidates c
      × (d.source ≡ c.source)
      × (d.value ≡ trim c.value)
      × Reason c.source d.reason
      × Overrides c candidates d.overridden_source

  rivals-keep :
      (c : SourceCandidate) (candidates : List SourceCandidate)
      → rivals to_lowercase c candidates ≡ keep (contests to_lowercase c) candidates
  unfolding rivals
  rivals-keep c candidates =
      keep-keep (λ (x : SourceCandidate). not (same_source x.source c.source)) speaks
        (λ (x : SourceCandidate). not (same_instruction to_lowercase x.value c.value)) candidates

  decision-Overrides :
      (c : SourceCandidate) (candidates : List SourceCandidate)
      → Overrides c candidates (decision to_lowercase c candidates).overridden_source
  unfolding decision
  decision-Overrides c candidates =
      split (max_by_key rank (rivals to_lowercase c candidates)) refl (
        subst (λ l. Maximal rank (contests to_lowercase c) candidates (max_by_key rank l))
          (sym (rivals-keep c candidates))
          (max_by_key-Maximal rank (contests to_lowercase c) candidates))
    where
      split :
          (o : Option SourceCandidate)
          → max_by_key rank (rivals to_lowercase c candidates) ≡ o
          → Maximal rank (contests to_lowercase c) candidates o
          → Overrides c candidates (decision to_lowercase c candidates).overridden_source
      split none e i =
          rw (e, decision)
            (no_choice (Contests to_lowercase c) (contests to_lowercase c)
              (contests-Contests to_lowercase c) (Contests-contests to_lowercase c) candidates i)
      split (some r) e i =
          rw (e, decision)
            (
              r,
              refl,
              first_choice (Contests to_lowercase c) (contests to_lowercase c)
                  (contests-Contests to_lowercase c) (Contests-contests to_lowercase c) candidates r
                  i,
            )

  -- There is no decision exactly if no candidate has a value that is more than blanks. Otherwise
  -- one of those that do is followed: none of them has authority over it, and it has authority over
  -- all that come later. The accessibility interface has authority over any other source, a dialog
  -- of the app over the screen, and these three over the sources of instructions. The decision has
  -- its source, its value without blanks around it, and the reason of its source. What it overrides
  -- is chosen in the same way among the candidates of other sources whose values are more than
  -- blanks and say something else, in lower case and with single blanks; it overrides nothing
  -- exactly if there are none.
  pub select_ui_fact-Decided :
      (candidates : List SourceCandidate)
      → Decided candidates (select_ui_fact to_lowercase candidates)
  unfolding select_ui_fact decision
  select_ui_fact-Decided candidates =
      split (max_by_key rank (keep speaks candidates)) refl
        (max_by_key-Maximal rank speaks candidates)
    where
      split :
          (o : Option SourceCandidate)
          → max_by_key rank (keep speaks candidates) ≡ o
          → Maximal rank speaks candidates o
          → Decided candidates (select_ui_fact to_lowercase candidates)
      split none e i =
          rw (e, select_ui_fact) (no_choice Speaks speaks speaks-Speaks Speaks-speaks candidates i)
      split (some c) e i =
          rw (e, select_ui_fact)
            (
              c,
              first_choice Speaks speaks speaks-Speaks Speaks-speaks candidates c i,
              refl,
              refl,
              fact_reason-Reason c.source,
              decision-Overrides c candidates,
            )
