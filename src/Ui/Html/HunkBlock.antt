-- ===== src/Ui/Html/HunkBlock.antt =====
-- mcp/toolbridge_mcp/ui/templates/note_edits.py: the lines and the card of a hunk.
use Prim.Native.String.{◌++◌ as ◌<>◌}
use toolbridge_api.Prelude.{
  String, Bool, true, false, Option, none, some, List, [], ◌∷◌, length, ltb, ◌==◌, if◌then◌else◌,
}
use toolbridge_api.Prelude.Text.{join, str}
use toolbridge_api.Diff.Types.{Kind, Status, is_unchanged, is_pending}
use toolbridge_api.Diff.Lines.{split_lf}
use toolbridge_api.Sessions.Types.{NoteEditHunkState}
use toolbridge_api.Ui.Dom.HunkBlock.{header_text}
use toolbridge_api.Ui.Dom.DiffContent.{display_proposed}
use toolbridge_api.Ui.Html.Escape.{escape}

abbrev pub line_html : Bool → String → String
line_html is_added line =
    (if is_added
      then "<div class=\"diff-line added\">+ "
      else "<div class=\"diff-line removed\">- ")
    <> (escape line <> "</div>")

-- `for line in …: lines_html += …`
abbrev pub join_lines : Bool → List String → String
join_lines is_added [] = ""
join_lines is_added (line ∷ lines) = line_html is_added line <> join_lines is_added lines

abbrev pub lines_html : Bool → String → String
lines_html is_added s = join_lines is_added (split_lf s)

-- the same under `if text:`
abbrev pub nonempty_html : Bool → String → String
nonempty_html is_added s = if s == "" then "" else lines_html is_added s

abbrev pub revised_html : Option String → String
revised_html none = ""
revised_html (some revised_text) = nonempty_html true revised_text

unfoldable pub render_diff_content_html : Kind → String → String → Option String → String
render_diff_content_html Kind.unchanged original proposed revised_text = ""
render_diff_content_html Kind.removed original proposed revised_text =
    lines_html false original <> revised_html revised_text
render_diff_content_html Kind.added original proposed revised_text =
    lines_html true (display_proposed proposed revised_text)
render_diff_content_html Kind.modified original proposed revised_text =
    nonempty_html false original <> nonempty_html true (display_proposed proposed revised_text)

-- the text of a status
abbrev pub status_name : Status → String
status_name Status.pending = "pending"
status_name Status.accepted = "accepted"
status_name Status.rejected = "rejected"
status_name Status.revised = "revised"

abbrev pub context_html : String → String
context_html original =
    let lines = split_lf original in
    if ltb 3 (length lines)
    then "... (" <> (str (length lines) <> " unchanged lines) ...")
    else escape original

abbrev pub unchanged_html : String → String
unchanged_html original =
    if original == ""
    then ""
    else "<div class=\"unchanged-block\"><span class=\"unchanged-text\">"
      <> (context_html original <> "</span></div>")

-- the pieces of the buttons of a pending hunk, `hunk_id` escaped
abbrev pub actions_html : String → List String
actions_html hunk_id =
    ("\n        <div class=\"hunk-actions\">\n            "
      ∷ "<button class=\"btn btn-sm btn-text\" onclick=\"rejectHunk('" ∷ hunk_id
      ∷ "')\">✗ Reject</button>\n            "
      ∷ "<button class=\"btn btn-sm btn-secondary\" onclick=\"reviseHunk('" ∷ hunk_id
      ∷ "')\">✎ Revise...</button>\n            "
      ∷ "<button class=\"btn btn-sm btn-primary\" onclick=\"acceptHunk('" ∷ hunk_id
      ∷ "')\">✓ Accept</button>\n        </div>\n        " ∷ [])

-- the pieces of the card of a changed hunk
abbrev pub card_html : NoteEditHunkState → List String
card_html h =
    ("\n    <div class=\"hunk-card status-"
      ∷ status_name h.status
      ∷ "\" data-hunk-id=\""
      ∷ escape h.id
      ∷ "\">\n        <div class=\"hunk-header\">\n            <span class=\"hunk-status-badge "
      ∷ status_name h.status
      ∷ "\">"
      ∷ status_name h.status
      ∷ "</span>\n            <span class=\"hunk-info\">"
      ∷ header_text h
      ∷ "</span>\n        </div>\n        <div class=\"hunk-content\">\n            "
      ∷ render_diff_content_html h.kind h.original h.proposed h.revised_text
      ∷ "\n        </div>\n        "
      ∷ (if is_pending h.status then join (actions_html (escape h.id)) else "")
      ∷ "\n    </div>\n    "
      ∷ [])

unfoldable pub render_hunk_block_html : NoteEditHunkState → String
render_hunk_block_html h =
    if is_unchanged h.kind then unchanged_html h.original else join (card_html h)
