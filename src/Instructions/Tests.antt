-- ===== src/Instructions/Tests.antt =====
-- src/instruction_sources.rs at concrete inputs.
use axterminator.Prelude.{
  codes_eq, ℕ, ◌≡◌, refl, some, List, [], ◌∷◌, codes, trim, trim_start, trim_end, is_whitespace,
  Option, String, true,
}
use axterminator.Instructions.{
  SourcePriorityMode, InstructionSource, InvocationActor, SourceCandidate, SourceDecision, from_raw,
  same_source, words_from, split_whitespace, join_words, ui_fact_rank, max_by_key, fact_reason,
  speaks, normalise, same_instruction, select_effective_description, rivals, decision,
  select_ui_fact, overrode_tool_args,
}
use axterminator.Instructions.Facts.{Decided, select_ui_fact-Decided}

program : Unit {0}
unfolding codes_eq from_raw same_source words_from split_whitespace join_words ui_fact_rank
    max_by_key fact_reason speaks normalise same_instruction select_effective_description rivals
    decision select_ui_fact overrode_tool_args trim trim_start trim_end is_whitespace
program = tt

abbrev fact : InstructionSource → String → SourceCandidate
fact source value = record { source = source; value = codes value }

abbrev candidates : List SourceCandidate
candidates =
    fact InstructionSource.screen_vision "Save as"
    ∷ fact InstructionSource.ax_api " "
    ∷ fact InstructionSource.app_dialog "Save"
    ∷ fact InstructionSource.app_dialog "Save  now "
    ∷ []

abbrev plain : List ℕ → List ℕ
plain s = s

abbrev chosen : Option SourceDecision
chosen = some (record {
  source = InstructionSource.app_dialog;
  value = codes "Save  now";
  overridden_source = some InstructionSource.screen_vision;
  reason = "app-dialog facts have higher authority than screen-vision facts when AX is absent";
})

last_of_equals : select_ui_fact plain candidates ≡ chosen
unfolding program
last_of_equals = refl

agent_overridden :
    overrode_tool_args (
      select_effective_description plain
        (codes "Delete")
        (some (codes " Cancel "))
        InvocationActor.agent)
    ≡ true
unfolding program
agent_overridden = refl

explicit : from_raw (some (codes " explicit\n")) ≡ SourcePriorityMode.explicit_mode
unfolding program
explicit = refl

select_ui_fact-Decided_example : Decided plain candidates (select_ui_fact plain candidates)
select_ui_fact-Decided_example = select_ui_fact-Decided plain candidates
