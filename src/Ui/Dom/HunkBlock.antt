-- ===== src/Ui/Dom/HunkBlock.antt =====
-- mcp/toolbridge_mcp/ui/remote_dom/note_edits.py: the card of a hunk.
use Prim.Native.String.{◌++◌ as ◌<>◌}
use toolbridge_api.Prelude.{
  ℕ, String, true, Option, none, some, List, [], ◌∷◌, ◌++◌, length, ltb, nat_eq, ◌==◌,
  if◌then◌else◌,
}
use toolbridge_api.Prelude.Text.{str}
use toolbridge_api.Dict.{Dict}
use toolbridge_api.Diff.Types.{Kind, Status, is_unchanged, is_pending}
use toolbridge_api.Diff.Lines.{split_lf}
use toolbridge_api.Sessions.Types.{NoteEditHunkState}
use toolbridge_api.Ui.Dom.Types.{Value, Node, nodes, element}
use toolbridge_api.Ui.Dom.Design.{body_medium, body_small, gap_sm, text_node}
use toolbridge_api.Ui.Dom.DiffContent.{render_diff_content}

abbrev diff_context_bg : String
diff_context_bg = "#21262d"

abbrev diff_context_text : String
diff_context_text = "#8b949e"

-- `hunk.status.capitalize()`
abbrev status_label : Status → String
status_label Status.pending = "Pending"
status_label Status.accepted = "Accepted"
status_label Status.rejected = "Rejected"
status_label Status.revised = "Revised"

abbrev status_icon : Status → String
status_icon Status.pending = "pending"
status_icon Status.accepted = "check"
status_icon Status.rejected = "close"
status_icon Status.revised = "edit"

abbrev pub kind_label : Kind → String
kind_label Kind.unchanged = "Unchanged"
kind_label Kind.added = "Added"
kind_label Kind.removed = "Removed"
kind_label Kind.modified = "Modified"

-- `STATUS_BG`, as the `color` of a card
abbrev status_bg : Status → Dict Value
status_bg Status.pending = []
status_bg Status.accepted = ("color", Value.text "#1c4428") ∷ []
status_bg Status.rejected = ("color", Value.text "#5c1a1b") ∷ []
status_bg Status.revised = ("color", Value.text "#2d3a4d") ∷ []

-- `STATUS_BORDER`
abbrev status_border : Status → String
status_border Status.pending = "#6e7681"
status_border Status.accepted = "#3fb950"
status_border Status.rejected = "#f85149"
status_border Status.revised = "#58a6ff"

abbrev pub range_text : ℕ → ℕ → String
range_text first last =
    if nat_eq first last then "line " <> str first else "lines " <> (str first <> ("-" <> str last))

-- the range of the proposed lines, where both ends are known
abbrev pub proposed_range : Option ℕ → Option ℕ → String
proposed_range (some first) (some last) = range_text first last
proposed_range _ _ = ""

-- the range of the original lines, or else of the proposed ones
abbrev pub line_info : Option ℕ → Option ℕ → Option ℕ → Option ℕ → String
line_info (some first) (some last) new_start new_end = range_text first last
line_info none orig_end new_start new_end = proposed_range new_start new_end
line_info (some first) none new_start new_end = proposed_range new_start new_end

abbrev pub header_text : NoteEditHunkState → String
header_text h =
    let info = line_info h.orig_start h.orig_end h.new_start h.new_end in
    if info == "" then kind_label h.kind else kind_label h.kind <> (" (" <> (info <> ")"))

abbrev pub header_row : NoteEditHunkState → Node
header_row h =
    element "row" (("gap", Value.number gap_sm) ∷ ("crossAxisAlignment", Value.text "center") ∷ [])
      (element "chip"
          (("label", Value.text (status_label h.status))
            ∷ ("variant", Value.text (if is_pending h.status then "outlined" else "filled"))
            ∷ ("icon", Value.text (status_icon h.status))
            ∷ [])
          []
        ∷ text_node (header_text h) body_medium (some "onSurfaceVariant")
        ∷ [])

-- a button that calls a tool
abbrev pub tool_button : Dict Value → String → Dict Value → Node
tool_button props tool_name params =
    Node.node "button" props (some (record { tool_name = tool_name; params = params })) (nodes [])

abbrev pub button_props : String → String → String → Dict Value
button_props label variant icon =
    ("label", Value.text label) ∷ ("variant", Value.text variant) ∷ ("icon", Value.text icon) ∷ []

abbrev pub end_row : List Node → Node
end_row children =
    element "row" (("gap", Value.number gap_sm) ∷ ("mainAxisAlignment", Value.text "end") ∷ [])
      children

abbrev pub hunk_params : String → String → Dict Value → Dict Value
hunk_params edit_id hunk_id more =
    ("edit_id", Value.text edit_id)
    ∷ ("hunk_id", Value.text hunk_id)
    ∷ (more ++ (("ui_format", Value.text "remote-dom") ∷ []))

-- the arguments that let the client ask for the replacement
abbrev pub needs_input : Dict Value
needs_input =
    ("needsInput", Value.flag true)
    ∷ ("prompt", Value.text "Enter replacement text for this change")
    ∷ []

abbrev pub action_row : String → String → Node
action_row edit_id hunk_id = end_row (
    tool_button (button_props "Reject" "text" "close") "reject_note_edit_hunk"
      (hunk_params edit_id hunk_id [])
    ∷ tool_button (button_props "Revise..." "secondary" "edit") "revise_note_edit_hunk"
        (hunk_params edit_id hunk_id needs_input)
    ∷ tool_button (button_props "Accept" "primary" "check") "accept_note_edit_hunk"
        (hunk_params edit_id hunk_id [])
    ∷ [])

abbrev pub option_nodes : Option Node → List Node
option_nodes none = []
option_nodes (some n) = n ∷ []

abbrev pub changed_children : String → NoteEditHunkState → List Node
changed_children edit_id h =
    header_row h
    ∷ (option_nodes (render_diff_content h.kind h.original h.proposed h.revised_text)
        ++ (if is_pending h.status then action_row edit_id h.id ∷ [] else []))

abbrev pub context_text : String → String
context_text original =
    let lines = split_lf original in
    if ltb 3 (length lines)
    then "... (" <> (str (length lines) <> " unchanged lines) ...")
    else original

-- an unchanged hunk, abbreviated
abbrev pub context_block : String → Option Node
context_block original =
    if original == ""
    then none
    else some (
        element "container"
          (("padding", Value.number 8)
            ∷ ("color", Value.text diff_context_bg)
            ∷ ("borderRadius", Value.number 4)
            ∷ [])
          (text_node (context_text original) body_small (some diff_context_text) ∷ []))

abbrev pub card : String → NoteEditHunkState → Node
card edit_id h =
    element "container"
      (("padding", Value.number 16)
        ∷ ("borderRadius", Value.number 8)
        ∷ (status_bg h.status
            ++ (("borderColor", Value.text (status_border h.status))
                ∷ ("borderWidth", Value.number 1)
                ∷ [])))
      (element "column"
          (("gap", Value.number gap_sm) ∷ ("crossAxisAlignment", Value.text "stretch") ∷ [])
          (changed_children edit_id h)
        ∷ [])

unfoldable pub render_hunk_block : String → NoteEditHunkState → Option Node
render_hunk_block edit_id h =
    if is_unchanged h.kind then context_block h.original else some (card edit_id h)
