-- ===== src/Instructions/Authority.antt =====
-- src/instruction_sources.rs: which source has authority over which, and what it means to speak.
use axterminator.Prelude.{
  ℕ, codes_eq, codes_eq_iff, ◌≡◌, ◌≢◌, refl, Bool, true, false, ltb, arith, not, trim, has_none,
  List, [], ◌∷◌, ◌&&◌,
}
use axterminator.Instructions.{
  InstructionSource, SourceCandidate, ui_fact_rank, same_source, speaks, same_instruction,
  normalise, join_words, split_whitespace,
}

-- The accessibility interface has authority over any other source, a dialog of the app over what is
-- seen on the screen, and these three over the sources of instructions.
abbrev pub above : InstructionSource → InstructionSource → Bool
above InstructionSource.ax_api InstructionSource.ax_api = false
above InstructionSource.ax_api _ = true
above InstructionSource.app_dialog InstructionSource.ax_api = false
above InstructionSource.app_dialog InstructionSource.app_dialog = false
above InstructionSource.app_dialog _ = true
above InstructionSource.screen_vision InstructionSource.human_user_prompt = true
above InstructionSource.screen_vision InstructionSource.agent_tool_args = true
above InstructionSource.screen_vision InstructionSource.human_tool_args = true
above _ _ = false

pub above-rank : (s t : InstructionSource) → ltb (ui_fact_rank t) (ui_fact_rank s) ≡ above s t
unfolding ui_fact_rank
above-rank InstructionSource.ax_api t = ground arith
above-rank InstructionSource.app_dialog t = ground arith
above-rank InstructionSource.screen_vision t = ground arith
above-rank InstructionSource.human_user_prompt t = ground arith
above-rank InstructionSource.agent_tool_args t = ground arith
above-rank InstructionSource.human_tool_args t = ground arith

same_source_refl : (s : InstructionSource) → same_source s s ≡ true
unfolding same_source
same_source_refl s = ground arith

same_source-eq : (s t : InstructionSource) → same_source s t ≡ true → s ≡ t
unfolding same_source
same_source-eq s t h = ground arith

-- The value is more than blanks.
abbrev pub Speaks : SourceCandidate → Type 0
Speaks c = trim c.value ≢ []

pub speaks-Speaks : (c : SourceCandidate) → speaks c ≡ true → Speaks c
unfolding speaks
speaks-Speaks c h e = ground (arith, h, e)

pub Speaks-speaks : (c : SourceCandidate) → Speaks c → speaks c ≡ true
unfolding speaks
Speaks-speaks c h = split (trim c.value) h
  where
    split : (t : List ℕ) → t ≢ [] → not (has_none t) ≡ true
    split [] h = absurd (h refl)
    split (x ∷ xs) h = refl

module _ (to_lowercase : List ℕ → List ℕ) where
  -- What a value says: its words in lower case, with one blank between two of them.
  abbrev pub said : List ℕ → List ℕ
  said value = to_lowercase (join_words (split_whitespace value))

  -- A candidate of another source says something, and something else.
  pub record Contests (chosen c : SourceCandidate) : Type 0 where
    pub source : c.source ≢ chosen.source
    pub says : Speaks c
    pub differs : said c.value ≢ said chosen.value

  abbrev pub contests : SourceCandidate → SourceCandidate → Bool
  contests chosen c =
      not (same_source c.source chosen.source)
      && (speaks c && not (same_instruction to_lowercase c.value chosen.value))

  same_instruction-said :
      (a b : List ℕ) → same_instruction to_lowercase a b ≡ codes_eq (said a) (said b)
  unfolding same_instruction normalise
  same_instruction-said a b = refl

  pub contests-Contests :
      (chosen c : SourceCandidate) → contests chosen c ≡ true → Contests chosen c
  contests-Contests chosen c h = record {
    source = λ e. ground (arith, h, e, same_source_refl chosen.source);
    says = speaks-Speaks c (ground (arith, h));
    differs = λ e. ground (
      arith,
      h,
      same_instruction-said c.value chosen.value,
      (codes_eq_iff (said c.value) (said chosen.value)).1 e,
    );
  }

  pub Contests-contests :
      (chosen c : SourceCandidate) → Contests chosen c → contests chosen c ≡ true
  Contests-contests chosen c k = ground (
    arith,
    k.source,
    k.differs,
    Speaks-speaks c k.says,
    same_source-eq c.source chosen.source,
    same_instruction-said c.value chosen.value,
    codes_eq_iff (said c.value) (said chosen.value),
  )
