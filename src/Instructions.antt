-- ===== src/Instructions.antt =====
-- src/instruction_sources.rs: which of several sources of an instruction or of a fact is followed.
-- A text is the list of its code points; its lower case is an argument, for any such function.
pub mod Authority
pub mod Maximum
pub mod Facts
mod Tests
use axterminator.Prelude.{
  codes_eq, ℕ, Bool, true, false, not, ◌&&◌, Option, none, some, List, [], ◌∷◌, ◌++◌, String, codes,
  if◌then◌else◌, ltb, ◌==◌, trim, is_whitespace, has_none, map_option, keep,
}

pub data SourcePriorityMode : Type 0 where
  legacy_mode explicit_mode : SourcePriorityMode

unfoldable pub from_raw : Option (List ℕ) → SourcePriorityMode
from_raw none = SourcePriorityMode.legacy_mode
from_raw (some raw) =
    if codes_eq (trim raw) (codes "explicit")
    then SourcePriorityMode.explicit_mode
    else SourcePriorityMode.legacy_mode

unfoldable pub is_explicit : SourcePriorityMode → Bool
is_explicit SourcePriorityMode.explicit_mode = true
is_explicit SourcePriorityMode.legacy_mode = false

pub data InstructionSource : Type 0 where
  human_user_prompt agent_tool_args human_tool_args ax_api app_dialog screen_vision :
      InstructionSource

unfoldable pub source_as_str : InstructionSource → String
source_as_str InstructionSource.human_user_prompt = "human_user_prompt"
source_as_str InstructionSource.agent_tool_args = "agent_tool_args"
source_as_str InstructionSource.human_tool_args = "human_tool_args"
source_as_str InstructionSource.ax_api = "ax_api"
source_as_str InstructionSource.app_dialog = "app_dialog"
source_as_str InstructionSource.screen_vision = "screen_vision"

-- The derived equality.
unfoldable pub same_source : InstructionSource → InstructionSource → Bool
same_source InstructionSource.human_user_prompt InstructionSource.human_user_prompt = true
same_source InstructionSource.agent_tool_args InstructionSource.agent_tool_args = true
same_source InstructionSource.human_tool_args InstructionSource.human_tool_args = true
same_source InstructionSource.ax_api InstructionSource.ax_api = true
same_source InstructionSource.app_dialog InstructionSource.app_dialog = true
same_source InstructionSource.screen_vision InstructionSource.screen_vision = true
same_source _ _ = false

pub data InvocationActor : Type 0 where
  human agent : InvocationActor

unfoldable pub from_tool_arg : Option (List ℕ) → InvocationActor
from_tool_arg none = InvocationActor.agent
from_tool_arg (some raw) =
    if codes_eq raw (codes "human") then InvocationActor.human else InvocationActor.agent

pub record SourceCandidate : Type 0 where
  pub source : InstructionSource
  pub value : List ℕ

pub record SourceDecision : Type 0 where
  pub source : InstructionSource
  pub value : List ℕ
  pub overridden_source : Option InstructionSource
  pub reason : String

unfoldable pub overrode_tool_args : SourceDecision → Bool
overrode_tool_args d = elim d.overridden_source [
  | none ↦ false
  | some s ↦ same_source s InstructionSource.agent_tool_args
]

-- The first word of a text, without white space before it, and the words after it.
unfoldable pub words_from : List ℕ → List ℕ × List (List ℕ)
words_from [] = ([], [])
words_from (c ∷ s) =
    let (word, rest) = words_from s in
    if is_whitespace c then ([], if has_none word then rest else word ∷ rest) else (c ∷ word, rest)

unfoldable pub split_whitespace : List ℕ → List (List ℕ)
split_whitespace s = let (word, rest) = words_from s in if has_none word then rest else word ∷ rest

unfoldable pub join_words : List (List ℕ) → List ℕ
join_words [] = []
join_words (w ∷ []) = w
join_words (w ∷ v ∷ ws) = w ++ (b' ' ∷ join_words (v ∷ ws))

unfoldable pub ui_fact_rank : InstructionSource → ℕ
ui_fact_rank InstructionSource.ax_api = 30
ui_fact_rank InstructionSource.app_dialog = 20
ui_fact_rank InstructionSource.screen_vision = 10
ui_fact_rank InstructionSource.human_user_prompt = 0
ui_fact_rank InstructionSource.agent_tool_args = 0
ui_fact_rank InstructionSource.human_tool_args = 0

-- `Iterator::max_by_key`: the last of the items with the greatest key.
unfoldable pub max_by_key : {A : Type 0} → (A → ℕ) → List A → Option A
max_by_key key [] = none
max_by_key key (x ∷ xs) = elim (max_by_key key xs) [
  | none ↦ some x
  | some m ↦ if ltb (key m) (key x) then some x else some m
]

unfoldable pub fact_reason : InstructionSource → String
fact_reason InstructionSource.ax_api =
    "AX API facts have higher authority than app-dialog or screen-vision facts"
fact_reason InstructionSource.app_dialog =
    "app-dialog facts have higher authority than screen-vision facts when AX is absent"
fact_reason InstructionSource.screen_vision =
    "screen vision is used only when no higher UI fact exists"
fact_reason _ = "instruction sources are not UI facts; preserve supplied order"

unfoldable pub speaks : SourceCandidate → Bool
speaks c = not (has_none (trim c.value))

module _ (to_lowercase : List ℕ → List ℕ) where
  unfoldable pub normalise : List ℕ → List ℕ
  normalise value = to_lowercase (join_words (split_whitespace value))

  unfoldable pub same_instruction : List ℕ → List ℕ → Bool
  same_instruction left right = codes_eq (normalise left) (normalise right)

  unfoldable pub select_effective_description :
      List ℕ → Option (List ℕ) → InvocationActor → SourceDecision
  select_effective_description tool_description user_prompt InvocationActor.human = record {
    source = InstructionSource.human_tool_args;
    value = trim tool_description;
    overridden_source = none;
    reason = "direct human tool args are treated as the user instruction";
  }
  select_effective_description tool_description user_prompt InvocationActor.agent =
      let tool_value = trim tool_description in
      let prompt_value : Option (List ℕ) = elim user_prompt [
        | none ↦ none
        | some p ↦ if has_none (trim p) then none else some (trim p)
      ] in
      elim prompt_value [
        | none ↦ record {
          source = InstructionSource.agent_tool_args;
          value = tool_value;
          overridden_source = none;
          reason = "no separate initiating user prompt was supplied";
        }
        | some prompt ↦
            let conflicts = not (same_instruction prompt tool_value) in
            record {
              source = InstructionSource.human_user_prompt;
              value = prompt;
              overridden_source =
                  if conflicts then some InstructionSource.agent_tool_args else none;
              reason =
                  if conflicts
                  then "human user prompt has higher authority than agent-supplied tool args"
                  else "human user prompt and agent tool args agree";
            }
      ]

  unfoldable pub select_legacy_description : List ℕ → InvocationActor → SourceDecision
  select_legacy_description tool_description actor = record {
    source = elim actor [
      | human ↦ InstructionSource.human_tool_args
      | agent ↦ InstructionSource.agent_tool_args
    ];
    value = trim tool_description;
    overridden_source = none;
    reason = "legacy mode preserves the supplied tool description";
  }

  -- The candidates of another source that speak and say something else.
  unfoldable pub rivals : SourceCandidate → List SourceCandidate → List SourceCandidate
  rivals chosen candidates =
      keep (λ (c : SourceCandidate). not (same_instruction c.value chosen.value))
        (keep speaks
          (keep (λ (c : SourceCandidate). not (same_source c.source chosen.source)) candidates))

  unfoldable pub decision : SourceCandidate → List SourceCandidate → SourceDecision
  decision chosen candidates = record {
    source = chosen.source;
    value = trim chosen.value;
    overridden_source =
        map_option (λ (c : SourceCandidate). c.source)
          (max_by_key (λ (c : SourceCandidate). ui_fact_rank c.source) (rivals chosen candidates));
    reason = fact_reason chosen.source;
  }

  unfoldable pub select_ui_fact : List SourceCandidate → Option SourceDecision
  select_ui_fact candidates =
      elim (max_by_key (λ (c : SourceCandidate). ui_fact_rank c.source) (keep speaks candidates)) [
        | none ↦ none
        | some chosen ↦ some (decision chosen candidates)
      ]
