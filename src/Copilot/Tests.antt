-- ===== src/Copilot/Tests.antt =====
-- src/copilot_state.rs at concrete inputs.
use axterminator.Prelude.{◌≡◌, refl, none, some, [], ◌∷◌, map, codes}
use axterminator.Copilot.{
  CopilotState, StateChange, Printers, opt_eq, list_eq, change, diff_by, diff_opt_str, diff_app,
  diff_selection, diff_navigation, diff_content, diff_states, watch_loop, truncate_str,
}
use axterminator.Copilot.Watcher.{Watched, watch_loop-Watched}

program : Unit {0}
unfolding opt_eq list_eq change diff_by diff_opt_str diff_app diff_selection diff_navigation
    diff_content diff_states watch_loop truncate_str
program = tt

abbrev blank : Printers
blank = record {
  opt_str = λ v. "";
  opt_usize = λ v. "";
  strings = λ v. "";
  usize = λ v. "";
  fields = λ v. "";
}

abbrev empty : CopilotState
empty = record {
  app = record { name = none; focused_window = none; active_tab = none; active_document = none };
  selection = record {
    selected_text = none;
    selected_list_row = none;
    selected_table_cell = none;
    selected_items = [];
  };
  navigation = record {
    breadcrumb = [];
    sidebar_selection = none;
    tab_bar_selection = none;
    depth = 0;
  };
  content = record {
    document_title = none;
    visible_text_excerpt = none;
    form_fields = [];
    focused_element_role = none;
    focused_element_title = none;
  };
  timestamp = 0;
}

abbrev deeper : CopilotState
deeper = record empty {
  navigation = record {
    breadcrumb = "Mail" ∷ [];
    sidebar_selection = none;
    tab_bar_selection = none;
    depth = 1;
  };
}

abbrev other_cell : CopilotState
other_cell = record empty {
  selection = record {
    selected_text = none;
    selected_list_row = none;
    selected_table_cell = some (2, 3);
    selected_items = [];
  };
}

two_changes :
    map (λ (c : StateChange). c.field) (diff_states blank empty deeper)
    ≡ "navigation.breadcrumb" ∷ "navigation.depth" ∷ []
unfolding program
two_changes = refl

-- The selected cell of a table is not compared.
cell_unseen : diff_states blank empty other_cell ≡ []
unfolding program
cell_unseen = refl

truncated : truncate_str (codes "abc") 2 ≡ codes "ab"
unfolding program
truncated = refl

watch_loop-Watched_example :
    Watched blank empty
      (other_cell ∷ deeper ∷ [])
      (watch_loop blank empty (other_cell ∷ deeper ∷ []))
watch_loop-Watched_example = watch_loop-Watched blank empty (other_cell ∷ deeper ∷ [])
