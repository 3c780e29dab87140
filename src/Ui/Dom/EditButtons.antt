-- ===== src/Ui/Dom/EditButtons.antt =====
-- mcp/toolbridge_mcp/ui/remote_dom/note_edits.py: the buttons of a proposed edit, beside the hunks of
-- its session.
use toolbridge_api.Prelude.{ℕ, String, ◌≡◌, refl, true, not, List, [], ◌∷◌, ◌++◌, ltb, any, filter}
use toolbridge_api.Dict.{Dict, lookup}
use toolbridge_api.Sessions.Types.{NoteEditHunkState}
use toolbridge_api.Sessions.Store.{is_pending_hunk}
use toolbridge_api.Ui.Dom.Types.{nodes, Button, buttons, buttons_in}
use toolbridge_api.Ui.Dom.Buttons.{use_tool, decisions}
use toolbridge_api.Ui.Dom.NoteEdits.{edit_params, final_row}

abbrev pub buttons_for : String → List NoteEditHunkState → List Button
buttons_for edit_id [] = []
buttons_for edit_id (h ∷ hunks) = decisions edit_id h.id ++ buttons_for edit_id hunks

-- the buttons of a proposed edit: decisions on what is pending, and the two that end the edit
abbrev pub edit_buttons : String → List NoteEditHunkState → List Button
edit_buttons edit_id hunks =
    buttons_for edit_id (filter is_pending_hunk hunks)
    ++ (use_tool "discard_note_edit" (edit_params edit_id) true
        ∷ use_tool "apply_note_edit" (edit_params edit_id) (not (any is_pending_hunk hunks))
        ∷ [])

final-buttons :
    (edit_id : String) (pending : ℕ)
    → buttons_in (nodes (final_row edit_id pending ∷ []))
      ≡ use_tool "discard_note_edit" (edit_params edit_id) true
        ∷ use_tool "apply_note_edit" (edit_params edit_id) (not (ltb 0 pending))
        ∷ []
unfolding buttons lookup
final-buttons edit_id pending = refl
