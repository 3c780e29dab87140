-- ===== src/Ui/Views.antt =====
-- What the templates of mcp/toolbridge_mcp/ui/templates and mcp/toolbridge_mcp/ui/remote_dom are
-- called with. A view stands for the HTML, or the Remote DOM, that they make of it.
use toolbridge_api.Prelude.{ℕ, String, Bool, Option, List}
use toolbridge_api.Notes.Types.{Note}
use toolbridge_api.Sessions.Types.{NoteEditHunkState}

pub data View : Type 0 where
  -- render_notes_list_html, render_notes_list_dom
  notes_list : List Note → ℕ → Bool → View
  -- render_note_detail_html, render_note_detail_dom
  note_detail : Note → View
  -- render_note_edit_diff_html, render_note_edit_diff_dom
  edit_diff : Note → List NoteEditHunkState → String → Option String → View
  -- render_note_edit_success_html, render_note_edit_success_dom
  edit_success : Note → View
  -- render_note_edit_discarded_html, render_note_edit_discarded_dom
  edit_discarded : String → View
  -- render_note_edit_error_html, render_note_edit_error_dom
  edit_error : String → Option String → View
