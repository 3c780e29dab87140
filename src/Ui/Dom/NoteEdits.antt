-- ===== src/Ui/Dom/NoteEdits.antt =====
-- mcp/toolbridge_mcp/ui/remote_dom/note_edits.py: the trees for a proposed, a discarded and a failed
-- edit.
use Prim.Native.String.{◌++◌ as ◌<>◌}
use toolbridge_api.Prelude.{
  ℕ, ◌+◌, String, true, not, Option, none, some, List, [], ◌∷◌, ◌++◌, ltb, ◌==◌, if◌then◌else◌,
}
use toolbridge_api.Prelude.Text.{str}
use toolbridge_api.Prelude.Strip.{strip}
use toolbridge_api.Errors.{Result, ok, ◌>>=◌}
use toolbridge_api.Dict.{Dict}
use toolbridge_api.Notes.Types.{Note, text_or}
use toolbridge_api.Sessions.Types.{NoteEditHunkState}
use toolbridge_api.Sessions.Store.{HunkCounts, count_hunks, no_counts}
use toolbridge_api.Ui.Dom.Types.{Value, Node, element}
use toolbridge_api.Ui.Dom.Design.{
  headline_medium, body_medium, body_small, gap_xs, gap_sm, gap_md, section_gap, text_node,
}
use toolbridge_api.Ui.Dom.HunkBlock.{
  tool_button, button_props, end_row, option_nodes, render_hunk_block,
}

-- an icon and a heading
abbrev heading : String → String → String → Node
heading icon color title =
    element "row" (("gap", Value.number gap_sm) ∷ ("crossAxisAlignment", Value.text "center") ∷ [])
      (element "icon"
          (("icon", Value.text icon) ∷ ("size", Value.number 24) ∷ ("color", Value.text color) ∷ [])
          []
        ∷ text_node title headline_medium none
        ∷ [])

abbrev subtitle : String → ℕ → Node
subtitle title version =
    text_node (strip title <> (" (v" <> (str version <> ")"))) body_small (some "onSurfaceVariant")

abbrev pub summary_nodes : Option String → List Node
summary_nodes none = []
summary_nodes (some summary) =
    if summary == "" then [] else text_node summary body_medium (some "onSurface") ∷ []

abbrev pub total_changes : HunkCounts → ℕ
total_changes c = c.pending + c.accepted + c.rejected + c.revised

-- a chip for a count that is not zero; only the pending one has no icon
abbrev pub count_chip : ℕ → String → Dict Value → List Node
count_chip n label more =
    if ltb 0 n
    then element "chip" (("label", Value.text (str n <> (" " <> label))) ∷ more) [] ∷ []
    else []

abbrev pub assist : String → Dict Value
assist icon = ("variant", Value.text "assist") ∷ ("icon", Value.text icon) ∷ []

abbrev pub status_chips : HunkCounts → List Node
status_chips c =
    count_chip c.pending "pending" (("variant", Value.text "outlined") ∷ [])
    ++ count_chip c.accepted "accepted" (assist "check")
    ++ count_chip c.rejected "rejected" (assist "close")
    ++ count_chip c.revised "revised" (assist "edit")

abbrev pub wrapped : List Node → List Node
wrapped [] = []
wrapped (chip ∷ chips) =
    element "wrap" (("gap", Value.number gap_xs) ∷ ("runSpacing", Value.number gap_xs) ∷ [])
      (chip ∷ chips)
    ∷ []

abbrev pub status_nodes : HunkCounts → List Node
status_nodes c = if ltb 0 (total_changes c) then wrapped (status_chips c) else []

abbrev pub hunk_nodes : String → List NoteEditHunkState → List Node
hunk_nodes edit_id [] = []
hunk_nodes edit_id (h ∷ hunks) =
    option_nodes (render_hunk_block edit_id h) ++ hunk_nodes edit_id hunks

abbrev pub apply_label : ℕ → String
apply_label pending =
    if ltb 0 pending then "Resolve " <> (str pending <> " pending to apply") else "Apply changes"

abbrev pub edit_params : String → Dict Value
edit_params edit_id = ("edit_id", Value.text edit_id) ∷ ("ui_format", Value.text "remote-dom") ∷ []

abbrev pub final_row : String → ℕ → Node
final_row edit_id pending = end_row (
    tool_button (button_props "Discard all" "text" "close") "discard_note_edit"
      (edit_params edit_id)
    ∷ tool_button
        (button_props (apply_label pending) "primary" "check"
          ++ (("enabled", Value.flag (not (ltb 0 pending))) ∷ []))
        "apply_note_edit" (edit_params edit_id)
    ∷ [])

-- the root of a tree; `Layout.MAX_WIDTH_DETAIL` is `None`
abbrev pub root : ℕ → Dict Value → List Node → Node
root gap more children =
    element "column"
      (("gap", Value.number gap)
        ∷ ("padding", Value.number 24)
        ∷ ("fullWidth", Value.flag true)
        ∷ ("crossAxisAlignment", Value.text "stretch")
        ∷ more)
      children

abbrev pub diff_children : String → ℕ → List NoteEditHunkState → String → Option String → List Node
diff_children title version hunks edit_id summary =
    let counts = count_hunks no_counts hunks in
    heading "edit" "primary" "Proposed changes"
    ∷ subtitle title version
    ∷ (summary_nodes summary
        ++ (status_nodes counts
            ++ (hunk_nodes edit_id hunks ++ (final_row edit_id counts.pending ∷ []))))

unfoldable pub render_note_edit_diff_dom :
    Note → List NoteEditHunkState → String → Option String → Result Node
render_note_edit_diff_dom note hunks edit_id summary =
    text_or note.payload "title" "Untitled note" >>= λ title.
    ok (root section_gap [] (diff_children title note.version hunks edit_id summary))

unfoldable pub render_note_edit_discarded_dom : String → Node
render_note_edit_discarded_dom title = root gap_md [] (
    heading "close" "onSurfaceVariant" "Changes discarded"
    ∷ text_node ("Pending edits for '" <> (title <> "' have been discarded.")) body_medium
        (some "onSurfaceVariant")
    ∷ [])

-- the advice to start again, where the note is known
abbrev retry_nodes : Option String → List Node
retry_nodes none = []
retry_nodes (some note_uid) =
    if note_uid == ""
    then []
    else text_node
        "The note may have been modified. Please re-run edit_note_ui to create a fresh diff."
        body_small (some "onSurfaceVariant")
      ∷ []

unfoldable pub render_note_edit_error_dom : String → Option String → Node
render_note_edit_error_dom error_message note_uid =
    root gap_md (("color", Value.text "errorContainer") ∷ ("borderRadius", Value.number 12) ∷ []) (
      heading "error" "error" "Failed to apply changes"
      ∷ text_node error_message body_medium (some "onErrorContainer")
      ∷ retry_nodes note_uid)
