-- ===== src/Ui/Dom/DiffContent.antt =====
-- mcp/toolbridge_mcp/ui/remote_dom/note_edits.py: the lines of a hunk.
use Prim.Native.String.{◌++◌ as ◌<>◌}
use toolbridge_api.Prelude.{
  String, Bool, true, false, Option, none, some, List, [], ◌∷◌, ◌++◌, map, ◌==◌, if◌then◌else◌,
}
use toolbridge_api.Diff.Types.{Kind}
use toolbridge_api.Diff.Lines.{split_lf}
use toolbridge_api.Ui.Dom.Types.{Value, Node, element}
use toolbridge_api.Ui.Dom.Design.{body_small}

abbrev diff_added_bg : String
diff_added_bg = "#1c4428"

abbrev diff_added_text : String
diff_added_text = "#3fb950"

abbrev diff_removed_bg : String
diff_removed_bg = "#5c1a1b"

abbrev diff_removed_text : String
diff_removed_text = "#f85149"

abbrev pub line_prefix : Bool → String
line_prefix is_added = if is_added then "+ " else "- "

abbrev pub render_diff_line : Bool → String → Node
render_diff_line is_added line =
    element "container"
      (("padding", Value.number 8)
        ∷ ("color", Value.text (if is_added then diff_added_bg else diff_removed_bg))
        ∷ [])
      (element "text"
          (("text", Value.text (line_prefix is_added <> line))
            ∷ ("style", Value.text body_small)
            ∷ ("color", Value.text (if is_added then diff_added_text else diff_removed_text))
            ∷ [])
          []
        ∷ [])

-- `for line in text.split('\n'): children.append(_render_diff_line(line, …))`
abbrev pub render_lines : Bool → String → List Node
render_lines is_added s = map (render_diff_line is_added) (split_lf s)

-- the same under `if text:`
abbrev pub render_nonempty : Bool → String → List Node
render_nonempty is_added s = if s == "" then [] else render_lines is_added s

-- `if revised_text: …`
abbrev pub render_revised : Option String → List Node
render_revised none = []
render_revised (some revised_text) = render_nonempty true revised_text

-- `revised_text if revised_text is not None else proposed`
abbrev pub display_proposed : String → Option String → String
display_proposed proposed none = proposed
display_proposed proposed (some revised_text) = revised_text

unfoldable pub content_lines : Kind → String → String → Option String → List Node
content_lines Kind.unchanged original proposed revised_text = []
content_lines Kind.removed original proposed revised_text =
    render_lines false original ++ render_revised revised_text
content_lines Kind.added original proposed revised_text =
    render_lines true (display_proposed proposed revised_text)
content_lines Kind.modified original proposed revised_text =
    render_nonempty false original ++ render_nonempty true (display_proposed proposed revised_text)

-- a column, or nothing where there are no lines
abbrev pub diff_column : List Node → Option Node
diff_column [] = none
diff_column (line ∷ lines) = some (
    element "column" (("gap", Value.number 0) ∷ ("crossAxisAlignment", Value.text "stretch") ∷ [])
      (line ∷ lines))

unfoldable pub render_diff_content : Kind → String → String → Option String → Option Node
unfolding content_lines
render_diff_content kind original proposed revised_text =
    diff_column (content_lines kind original proposed revised_text)
