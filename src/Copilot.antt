-- ===== src/Copilot.antt =====
-- src/copilot_state.rs: a snapshot of an application, the difference of two, and the loop that
-- reports changes. The snapshots come from the accessibility interface: they are arguments. The
-- values of a change are printed by the JSON library, for any such printers.
mod Fields
pub mod Diff
pub mod Watcher
mod Tests
use axterminator.Prelude.{
  ℕ, suc, ◌≤◌, String, Bool, true, false, not, ◌&&◌, Option, none, some, List, [], ◌∷◌, ◌++◌,
  if◌then◌else◌, str_eq, ◌==◌, leb, length, take,
}

pub record AppContext : Type 0 where
  pub name : Option String
  pub focused_window : Option String
  pub active_tab : Option String
  pub active_document : Option String

pub record SelectionContext : Type 0 where
  pub selected_text : Option String
  pub selected_list_row : Option ℕ
  pub selected_table_cell : Option (ℕ × ℕ)
  pub selected_items : List String

pub record NavigationContext : Type 0 where
  pub breadcrumb : List String
  pub sidebar_selection : Option String
  pub tab_bar_selection : Option String
  pub depth : ℕ

pub record ContentContext : Type 0 where
  pub document_title : Option String
  pub visible_text_excerpt : Option String
  pub form_fields : List (String × String)
  pub focused_element_role : Option String
  pub focused_element_title : Option String

pub record CopilotState : Type 0 where
  pub app : AppContext
  pub selection : SelectionContext
  pub navigation : NavigationContext
  pub content : ContentContext
  pub timestamp : ℕ

pub record StateChange : Type 0 where
  pub field : String
  pub old_value : String
  pub new_value : String

-- `serde_json::to_string(…).unwrap_or_default()` at each type that it is used at.
pub record Printers : Type 0 where
  pub opt_str : Option String → String
  pub opt_usize : Option ℕ → String
  pub strings : List String → String
  pub usize : ℕ → String
  pub fields : List (String × String) → String

unfoldable pub opt_eq : {A : Type 0} → (A → A → Bool) → Option A → Option A → Bool
opt_eq eq none none = true
opt_eq eq (some a) (some b) = eq a b
opt_eq eq _ _ = false

unfoldable pub list_eq : {A : Type 0} → (A → A → Bool) → List A → List A → Bool
list_eq eq [] [] = true
list_eq eq (x ∷ xs) (y ∷ ys) = eq x y && list_eq eq xs ys
list_eq eq _ _ = false

unfoldable pub field_eq : String × String → String × String → Bool
field_eq (a, x) (b, y) = str_eq a b && str_eq x y

unfoldable pub change : {A : Type 0} → (A → String) → String → A → A → StateChange
change print field old new = record { field = field; old_value = print old; new_value = print new }

-- `if old != new { changes.push(…) }`
unfoldable pub diff_by :
    {A : Type 0}
    → (A → A → Bool)
    → (A → String)
    → String
    → A
    → A
    → List StateChange
    → List StateChange
unfolding change
diff_by eq print field old new changes =
    if eq old new then changes else changes ++ (change print field old new ∷ [])

module _ (p : Printers) where
  unfoldable pub diff_opt_str :
      String → Option String → Option String → List StateChange → List StateChange
  diff_opt_str prefix old new changes = diff_by (opt_eq str_eq) p.opt_str prefix old new changes

  unfoldable pub diff_app : AppContext → AppContext → List StateChange → List StateChange
  diff_app old new changes =
      diff_opt_str "app.active_document" old.active_document new.active_document (
        diff_opt_str "app.active_tab" old.active_tab new.active_tab (
          diff_opt_str "app.focused_window" old.focused_window new.focused_window
            (diff_opt_str "app.name" old.name new.name changes)))

  unfoldable pub diff_selection :
      SelectionContext → SelectionContext → List StateChange → List StateChange
  diff_selection old new changes =
      diff_by (list_eq str_eq) p.strings "selection.selected_items" old.selected_items
        new.selected_items
        (diff_by (opt_eq ◌==◌) p.opt_usize "selection.selected_list_row" old.selected_list_row
          new.selected_list_row
          (diff_opt_str "selection.selected_text" old.selected_text new.selected_text changes))

  unfoldable pub diff_navigation :
      NavigationContext → NavigationContext → List StateChange → List StateChange
  diff_navigation old new changes = diff_by ◌==◌ p.usize "navigation.depth" old.depth new.depth (
      diff_opt_str "navigation.tab_bar_selection" old.tab_bar_selection new.tab_bar_selection (
        diff_opt_str "navigation.sidebar_selection" old.sidebar_selection new.sidebar_selection (
          diff_by (list_eq str_eq) p.strings "navigation.breadcrumb" old.breadcrumb new.breadcrumb
            changes)))

  unfoldable pub diff_content :
      ContentContext → ContentContext → List StateChange → List StateChange
  diff_content old new changes =
      diff_opt_str "content.focused_element_title" old.focused_element_title
        new.focused_element_title
        (diff_opt_str "content.focused_element_role" old.focused_element_role
          new.focused_element_role
          (diff_by (list_eq field_eq) p.fields "content.form_fields" old.form_fields new.form_fields
            (diff_opt_str "content.visible_text_excerpt" old.visible_text_excerpt
              new.visible_text_excerpt
              (diff_opt_str "content.document_title" old.document_title new.document_title
                changes))))

  unfoldable pub diff_states : CopilotState → CopilotState → List StateChange
  diff_states old new = diff_content old.content new.content (
      diff_navigation old.navigation new.navigation
        (diff_selection old.selection new.selection (diff_app old.app new.app [])))

  -- The loop of the watcher over the snapshots that it reads until it is stopped: the calls of the
  -- callback, and the state that later snapshots are compared with.
  unfoldable pub watch_loop :
      CopilotState → List CopilotState → List (CopilotState × List StateChange) × CopilotState
  watch_loop prev [] = ([], prev)
  watch_loop prev (current ∷ snapshots) = elim (diff_states prev current) [
    | [] ↦ watch_loop prev snapshots
    | c ∷ cs ↦ let (calls, last) = watch_loop current snapshots in ((current, c ∷ cs) ∷ calls, last)
  ]

-- `truncate_str`, on code points.
unfoldable pub truncate_str : List ℕ → ℕ → List ℕ
truncate_str s max_chars = if leb (length s) max_chars then s else take max_chars s
