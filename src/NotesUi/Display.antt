-- ===== src/NotesUi/Display.antt =====
-- mcp/toolbridge_mcp/tools/notes_ui.py: `_truncate_unchanged_for_display`.
use toolbridge_api.Prelude.{ℕ, not, ◌&&◌, none, List, map, ◌==◌, ltb, length, if◌then◌else◌}
use toolbridge_api.Diff.Types.{DiffHunk, is_unchanged}
use toolbridge_api.Diff.Lines.{split_lf}
use toolbridge_api.Diff.Compute.{truncate_text}

-- `MAX_UNCHANGED_LINES_DISPLAY`
abbrev pub max_unchanged_lines_display : ℕ
max_unchanged_lines_display = 5

-- The body of the loop. A text that is short enough is its own truncation, and the hunk stays.
unfoldable pub truncate_hunk : ℕ → DiffHunk → DiffHunk
truncate_hunk max_lines h =
    if is_unchanged h.kind && not (h.original == "")
    then if ltb max_lines (length (split_lf h.original))
      then record h {
        original = truncate_text max_lines h.original;
        proposed = truncate_text max_lines h.original;
        orig_line_count = none;
        new_line_count = none;
      }
      else h
    else h

unfoldable pub truncate_unchanged_for_display : ℕ → List DiffHunk → List DiffHunk
truncate_unchanged_for_display max_lines hunks = map (truncate_hunk max_lines) hunks
