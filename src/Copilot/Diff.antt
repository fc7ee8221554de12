-- ===== src/Copilot/Diff.antt =====
-- src/copilot_state.rs: when the difference of two snapshots is empty, and what the watcher has
-- reported.
use axterminator.Prelude.{
  ℕ, ◌≡◌, refl, ap, ◌↔◌, String, Option, List, [], str_eq, str_eq_iff, ==_iff, ◌==◌,
}
use axterminator.Copilot.Fields.{opt_eq-Decides, list_eq-Decides, field_eq-Decides, diff_by-empty}
use axterminator.Copilot.{
  AppContext, SelectionContext, NavigationContext, ContentContext, CopilotState, StateChange,
  Printers, opt_eq, list_eq, field_eq, diff_by, diff_opt_str, diff_app, diff_selection,
  diff_navigation, diff_content, diff_states,
}

-- The fields that are compared: all but the selected cell of a table and the time.
pub record Same (a b : CopilotState) : Type 0 where
  pub app : a.app ≡ b.app
  pub selected_text : a.selection.selected_text ≡ b.selection.selected_text
  pub selected_list_row : a.selection.selected_list_row ≡ b.selection.selected_list_row
  pub selected_items : a.selection.selected_items ≡ b.selection.selected_items
  pub navigation : a.navigation ≡ b.navigation
  pub content : a.content ≡ b.content

module _ (p : Printers) where
  diff_opt_str-empty :
      (field : String) (old new : Option String) (changes : List StateChange)
      → (diff_opt_str p field old new changes ≡ []) ↔ ((old ≡ new) × (changes ≡ []))
  unfolding diff_opt_str
  diff_opt_str-empty field old new changes =
      diff_by-empty (opt_eq str_eq) (opt_eq-Decides str_eq str_eq_iff) p.opt_str field old new
        changes

  diff_app-empty :
      (old new : AppContext) (changes : List StateChange)
      → (diff_app p old new changes ≡ []) ↔ ((old ≡ new) × (changes ≡ []))
  unfolding diff_app
  diff_app-empty old new changes = (forth, back)
    where
      forth : diff_app p old new changes ≡ [] → (old ≡ new) × (changes ≡ [])
      forth h =
          let (d, h) = (diff_opt_str-empty _ _ _ _).0 h in
          let (c, h) = (diff_opt_str-empty _ _ _ _).0 h in
          let (b, h) = (diff_opt_str-empty _ _ _ _).0 h in
          let (a, h) = (diff_opt_str-empty _ _ _ _).0 h in
          (
            λ i. record {
              name = a i;
              focused_window = b i;
              active_tab = c i;
              active_document = d i;
            },
            h,
          )

      back : (old ≡ new) × (changes ≡ []) → diff_app p old new changes ≡ []
      back (e, k) = (diff_opt_str-empty _ _ _ _).1 (
        ap (λ (c : AppContext). c.active_document) e,
        (diff_opt_str-empty _ _ _ _).1 (
          ap (λ (c : AppContext). c.active_tab) e,
          (diff_opt_str-empty _ _ _ _).1 (
            ap (λ (c : AppContext). c.focused_window) e,
            (diff_opt_str-empty _ _ _ _).1 (ap (λ (c : AppContext). c.name) e, k),
          ),
        ),
      )

  items-empty :
      (field : String) (old new : List String) (changes : List StateChange)
      → (diff_by (list_eq str_eq) p.strings field old new changes ≡ [])
        ↔ ((old ≡ new) × (changes ≡ []))
  items-empty = diff_by-empty (list_eq str_eq) (list_eq-Decides str_eq str_eq_iff) p.strings

  row-empty :
      (field : String) (old new : Option ℕ) (changes : List StateChange)
      → (diff_by (opt_eq ◌==◌) p.opt_usize field old new changes ≡ [])
        ↔ ((old ≡ new) × (changes ≡ []))
  row-empty = diff_by-empty (opt_eq ◌==◌) (opt_eq-Decides ◌==◌ ==_iff) p.opt_usize

  diff_selection-empty :
      (old new : SelectionContext) (changes : List StateChange)
      → (diff_selection p old new changes ≡ []) ↔ (
          ((old.selected_text ≡ new.selected_text)
            × (old.selected_list_row ≡ new.selected_list_row)
            × (old.selected_items ≡ new.selected_items))
          × (changes ≡ []))
  unfolding diff_selection
  diff_selection-empty old new changes = (forth, back)
    where
      forth :
          diff_selection p old new changes ≡ []
          → ((old.selected_text ≡ new.selected_text)
              × (old.selected_list_row ≡ new.selected_list_row)
              × (old.selected_items ≡ new.selected_items))
            × (changes ≡ [])
      forth h =
          let (c, h) = (items-empty _ _ _ _).0 h in
          let (b, h) = (row-empty _ _ _ _).0 h in
          let (a, h) = (diff_opt_str-empty _ _ _ _).0 h in ((a, b, c), h)

      back :
          ((old.selected_text ≡ new.selected_text)
              × (old.selected_list_row ≡ new.selected_list_row)
              × (old.selected_items ≡ new.selected_items))
            × (changes ≡ [])
          → diff_selection p old new changes ≡ []
      back ((a, b, c), k) =
          (items-empty _ _ _ _).1
            (c, (row-empty _ _ _ _).1 (b, (diff_opt_str-empty _ _ _ _).1 (a, k)))

  depth-empty :
      (field : String) (old new : ℕ) (changes : List StateChange)
      → (diff_by ◌==◌ p.usize field old new changes ≡ []) ↔ ((old ≡ new) × (changes ≡ []))
  depth-empty = diff_by-empty ◌==◌ ==_iff p.usize

  diff_navigation-empty :
      (old new : NavigationContext) (changes : List StateChange)
      → (diff_navigation p old new changes ≡ []) ↔ ((old ≡ new) × (changes ≡ []))
  unfolding diff_navigation
  diff_navigation-empty old new changes = (forth, back)
    where
      forth : diff_navigation p old new changes ≡ [] → (old ≡ new) × (changes ≡ [])
      forth h =
          let (d, h) = (depth-empty _ _ _ _).0 h in
          let (c, h) = (diff_opt_str-empty _ _ _ _).0 h in
          let (b, h) = (diff_opt_str-empty _ _ _ _).0 h in
          let (a, h) = (items-empty _ _ _ _).0 h in
          (
            λ i. record {
              breadcrumb = a i;
              sidebar_selection = b i;
              tab_bar_selection = c i;
              depth = d i;
            },
            h,
          )

      back : (old ≡ new) × (changes ≡ []) → diff_navigation p old new changes ≡ []
      back (e, k) = (depth-empty _ _ _ _).1 (
        ap (λ (c : NavigationContext). c.depth) e,
        (diff_opt_str-empty _ _ _ _).1 (
          ap (λ (c : NavigationContext). c.tab_bar_selection) e,
          (diff_opt_str-empty _ _ _ _).1 (
            ap (λ (c : NavigationContext). c.sidebar_selection) e,
            (items-empty _ _ _ _).1 (ap (λ (c : NavigationContext). c.breadcrumb) e, k),
          ),
        ),
      )

  fields-empty :
      (field : String) (old new : List (String × String)) (changes : List StateChange)
      → (diff_by (list_eq field_eq) p.fields field old new changes ≡ [])
        ↔ ((old ≡ new) × (changes ≡ []))
  fields-empty =
      diff_by-empty (list_eq field_eq) (list_eq-Decides field_eq field_eq-Decides) p.fields

  diff_content-empty :
      (old new : ContentContext) (changes : List StateChange)
      → (diff_content p old new changes ≡ []) ↔ ((old ≡ new) × (changes ≡ []))
  unfolding diff_content
  diff_content-empty old new changes = (forth, back)
    where
      forth : diff_content p old new changes ≡ [] → (old ≡ new) × (changes ≡ [])
      forth h =
          let (e, h) = (diff_opt_str-empty _ _ _ _).0 h in
          let (d, h) = (diff_opt_str-empty _ _ _ _).0 h in
          let (c, h) = (fields-empty _ _ _ _).0 h in
          let (b, h) = (diff_opt_str-empty _ _ _ _).0 h in
          let (a, h) = (diff_opt_str-empty _ _ _ _).0 h in
          (
            λ i. record {
              document_title = a i;
              visible_text_excerpt = b i;
              form_fields = c i;
              focused_element_role = d i;
              focused_element_title = e i;
            },
            h,
          )

      back : (old ≡ new) × (changes ≡ []) → diff_content p old new changes ≡ []
      back (e, k) = (diff_opt_str-empty _ _ _ _).1 (
        ap (λ (c : ContentContext). c.focused_element_title) e,
        (diff_opt_str-empty _ _ _ _).1 (
          ap (λ (c : ContentContext). c.focused_element_role) e,
          (fields-empty _ _ _ _).1 (
            ap (λ (c : ContentContext). c.form_fields) e,
            (diff_opt_str-empty _ _ _ _).1 (
              ap (λ (c : ContentContext). c.visible_text_excerpt) e,
              (diff_opt_str-empty _ _ _ _).1 (ap (λ (c : ContentContext). c.document_title) e, k),
            ),
          ),
        ),
      )

  pub diff_states-Same : (old new : CopilotState) → (diff_states p old new ≡ []) ↔ Same old new
  unfolding diff_states
  diff_states-Same old new = (forth, back)
    where
      forth : diff_states p old new ≡ [] → Same old new
      forth h =
          let (d, h) = (diff_content-empty _ _ _).0 h in
          let (c, h) = (diff_navigation-empty _ _ _).0 h in
          let ((t, r, i), h) = (diff_selection-empty _ _ _).0 h in
          let (a, h) = (diff_app-empty _ _ _).0 h in
          record {
            app = a;
            selected_text = t;
            selected_list_row = r;
            selected_items = i;
            navigation = c;
            content = d;
          }

      back : Same old new → diff_states p old new ≡ []
      back s = (diff_content-empty _ _ _).1 (
        s.content,
        (diff_navigation-empty _ _ _).1 (
          s.navigation,
          (diff_selection-empty _ _ _).1 (
            (s.selected_text, s.selected_list_row, s.selected_items),
            (diff_app-empty _ _ _).1 (s.app, refl),
          ),
        ),
      )
