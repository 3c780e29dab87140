-- ===== src/Diff/Annotate.antt =====
-- mcp/toolbridge_mcp/utils/diff.py: `annotate_hunks_with_ids` and `count_changes`.
use Prim.Native.String.{◌++◌ as ◌<>◌}
use toolbridge_api.Prelude.{
  ℕ, ◌+◌, ◌-◌, String, Option, none, some, List, [], ◌∷◌, ltb, ◌==◌, if◌then◌else◌, length,
}
use toolbridge_api.Prelude.Text.{str}
use toolbridge_api.Diff.Types.{Kind, DiffHunk}
use toolbridge_api.Diff.Lines.{splitlines}

-- the stored line count, or a count of the text's lines
abbrev pub line_count : Option ℕ → String → ℕ
line_count (some n) text = n
line_count none text = if text == "" then 0 else length (splitlines text)

abbrev pub orig_len : DiffHunk → ℕ
orig_len h = line_count h.orig_line_count h.original

abbrev pub new_len : DiffHunk → ℕ
new_len h = line_count h.new_line_count h.proposed

-- `line if n > 0 else None`, and the last of `n` lines that begin at `line`
abbrev pub first_line : ℕ → ℕ → Option ℕ
first_line line n = if ltb 0 n then some line else none

abbrev pub last_line : ℕ → ℕ → Option ℕ
last_line line n = if ltb 0 n then some (line + n - 1) else none

-- The start and the end in the original, which an added hunk has not.
abbrev pub orig_range : Kind → ℕ → ℕ → Option ℕ × Option ℕ
orig_range Kind.added line n = (none, none)
orig_range _ line n = (first_line line n, last_line line n)

-- The start and the end in the proposed text, which a removed hunk has not.
abbrev pub new_range : Kind → ℕ → ℕ → Option ℕ × Option ℕ
new_range Kind.removed line n = (none, none)
new_range _ line n = (first_line line n, last_line line n)

-- `f"h{i + 1}"`
abbrev pub hunk_id : ℕ → String
hunk_id i = "h" <> str (i + 1)

abbrev pub annotated : ℕ → ℕ → ℕ → DiffHunk → DiffHunk
annotated i orig_line new_line h = record {
  kind = h.kind;
  original = h.original;
  proposed = h.proposed;
  id = some (hunk_id i);
  orig_start = (orig_range h.kind orig_line (orig_len h)).0;
  orig_end = (orig_range h.kind orig_line (orig_len h)).1;
  new_start = (new_range h.kind new_line (new_len h)).0;
  new_end = (new_range h.kind new_line (new_len h)).1;
  orig_line_count = none;
  new_line_count = none;
}

-- The loop, at the index `i` with the two line counters. Adding 0 is the skipped advance.
unfoldable pub annotate_loop : ℕ → ℕ → ℕ → List DiffHunk → List DiffHunk
annotate_loop i orig_line new_line [] = []
annotate_loop i orig_line new_line (h ∷ hunks) =
    annotated i orig_line new_line h
    ∷ annotate_loop (i + 1) (orig_line + orig_len h) (new_line + new_len h) hunks

unfoldable pub annotate_hunks_with_ids : List DiffHunk → List DiffHunk
unfolding annotate_loop splitlines str
annotate_hunks_with_ids hunks = annotate_loop 0 1 1 hunks

pub record Changes : Type 0 where
  pub added : ℕ
  pub removed : ℕ
  pub modified : ℕ
  pub unchanged : ℕ

abbrev pub bump : Kind → Changes → Changes
bump Kind.unchanged c = record c { unchanged = c.unchanged + 1 }
bump Kind.added c = record c { added = c.added + 1 }
bump Kind.removed c = record c { removed = c.removed + 1 }
bump Kind.modified c = record c { modified = c.modified + 1 }

unfoldable pub count_loop : Changes → List DiffHunk → Changes
count_loop counts [] = counts
count_loop counts (h ∷ hunks) = count_loop (bump h.kind counts) hunks

unfoldable pub count_changes : List DiffHunk → Changes
unfolding count_loop
count_changes hunks =
    count_loop (record { added = 0; removed = 0; modified = 0; unchanged = 0 }) hunks
