-- ===== src/Diff/Compute.antt =====
-- mcp/toolbridge_mcp/utils/diff.py: `compute_line_diff`, over the opcodes of a matcher.
pub mod Bounds
use Prim.Native.String.{◌++◌ as ◌<>◌}
use toolbridge_api.Prelude.{
  ℕ, ◌+◌, ◌-◌, ◌/◌, String, Bool, not, ◌&&◌, some, List, [], ◌∷◌, map, ltb, nat_eq, ◌==◌,
  if◌then◌else◌, or_zero, length, take, drop, slice, is_empty,
}
use toolbridge_api.Prelude.Text.{join, join_with, str}
use toolbridge_api.Diff.Types.{Kind, DiffHunk, kind_eq, plain_hunk}
use toolbridge_api.Diff.Lines.{splitlines, split_lf}
use toolbridge_api.Diff.Matcher.{Tag, Opcode, Matcher}

-- `lines[-n:]`, which is the whole list at 0
last_lines : ℕ → List String → List String
last_lines n lines = if nat_eq n 0 then lines else drop (length lines - n) lines

-- The first and the last lines of a text with more than `max_lines` lines, and a note between them.
unfoldable pub truncate_text : ℕ → String → String
unfolding last_lines split_lf str
truncate_text max_lines text =
    let lines = split_lf text in
    let half = max_lines / 2 in
    if ltb max_lines (length lines)
    then join_with "\n" (take half lines)
      <> ("\n... ("
          <> (str (length lines - max_lines)
              <> (" lines unchanged) ...\n" <> join_with "\n" (last_lines half lines))))
    else text

display : Bool → ℕ → String → String
unfolding truncate_text
display truncate max_lines text =
    if truncate && not (text == "") then truncate_text max_lines text else text

-- `DiffHunk(kind=…, …, _orig_line_count=m, _new_line_count=n)`
abbrev pub counted_hunk : Kind → String → String → ℕ → ℕ → DiffHunk
counted_hunk k original proposed m n = record (plain_hunk k original proposed) {
  orig_line_count = some m;
  new_line_count = some n;
}

-- the branches on the tag: `shown` is the text of an unchanged section
abbrev pub tag_hunk : Tag → String → String → String → ℕ → ℕ → DiffHunk
tag_hunk Tag.equal shown orig_text new_text m n = counted_hunk Kind.unchanged shown shown m n
tag_hunk Tag.replace shown orig_text new_text m n =
    counted_hunk Kind.modified orig_text new_text m n
tag_hunk Tag.delete shown orig_text new_text m n = counted_hunk Kind.removed orig_text "" m 0
tag_hunk Tag.insert shown orig_text new_text m n = counted_hunk Kind.added "" new_text 0 n

-- The body of the loop over the opcodes.
unfoldable pub hunk_of : Bool → ℕ → List String → List String → Opcode → DiffHunk
unfolding display
hunk_of truncate max_lines orig_lines new_lines o =
    let orig_text = join (slice o.i1 o.i2 orig_lines) in
    let new_text = join (slice o.j1 o.j2 new_lines) in
    tag_hunk o.tag (display truncate max_lines orig_text) orig_text new_text (o.i2 - o.i1)
      (o.j2 - o.j1)

-- `_join_texts`
abbrev pub join_texts : String → String → String
join_texts a b = a <> b

-- two hunks of one kind as one
abbrev pub merge_pair : DiffHunk → DiffHunk → DiffHunk
merge_pair current hunk =
    counted_hunk current.kind (join_texts current.original hunk.original)
      (join_texts current.proposed hunk.proposed)
      (or_zero current.orig_line_count + or_zero hunk.orig_line_count)
      (or_zero current.new_line_count + or_zero hunk.new_line_count)

-- The loop of `_merge_consecutive_hunks`, with `current` and the hunks still to come.
unfoldable pub merge_loop : DiffHunk → List DiffHunk → List DiffHunk
merge_loop current [] = current ∷ []
merge_loop current (hunk ∷ hunks) =
    let same = kind_eq hunk.kind current.kind in
    let rest = merge_loop (if same then merge_pair current hunk else hunk) hunks in
    if same then rest else current ∷ rest

unfoldable pub merge_consecutive_hunks : List DiffHunk → List DiffHunk
unfolding merge_loop
merge_consecutive_hunks [] = []
merge_consecutive_hunks (hunk ∷ hunks) = merge_loop hunk hunks

-- What follows the splitting into lines.
unfoldable pub diff_lines :
    Matcher → String → String → ℕ → Bool → List String → List String → List DiffHunk
unfolding hunk_of merge_consecutive_hunks
diff_lines get_opcodes original proposed max_unchanged_lines truncate_unchanged orig_lines
      new_lines =
    if is_empty orig_lines && is_empty new_lines
    then []
    else if is_empty orig_lines
    then plain_hunk Kind.added "" proposed ∷ []
    else if is_empty new_lines
    then plain_hunk Kind.removed original "" ∷ []
    else merge_consecutive_hunks (
        map (hunk_of truncate_unchanged max_unchanged_lines orig_lines new_lines)
          (get_opcodes orig_lines new_lines))

-- `context_lines`, which the source ignores, is left out.
unfoldable pub compute_line_diff : Matcher → String → String → ℕ → Bool → List DiffHunk
unfolding diff_lines splitlines
compute_line_diff get_opcodes original proposed max_unchanged_lines truncate_unchanged =
    diff_lines get_opcodes original proposed max_unchanged_lines truncate_unchanged
      (splitlines original) (splitlines proposed)
