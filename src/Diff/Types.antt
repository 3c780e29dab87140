-- ===== src/Diff/Types.antt =====
-- mcp/toolbridge_mcp/utils/diff.py: the data of a line diff.
use toolbridge_api.Prelude.{ℕ, String, Bool, true, false, Option, none}

-- `kind`, a hunk's type of change
pub data Kind : Type 0 where
  unchanged added removed modified : Kind

-- `status`, a decision on a hunk
pub data Status : Type 0 where
  pending accepted rejected revised : Status

pub record DiffHunk : Type 0 where
  pub kind : Kind
  pub original : String
  pub proposed : String
  pub id : Option String
  pub orig_start : Option ℕ
  pub orig_end : Option ℕ
  pub new_start : Option ℕ
  pub new_end : Option ℕ
  pub orig_line_count : Option ℕ
  pub new_line_count : Option ℕ

pub record HunkDecision : Type 0 where
  pub status : Status
  pub revised_text : Option String

-- `a.kind == b.kind`
abbrev pub kind_eq : Kind → Kind → Bool
kind_eq Kind.unchanged Kind.unchanged = true
kind_eq Kind.added Kind.added = true
kind_eq Kind.removed Kind.removed = true
kind_eq Kind.modified Kind.modified = true
kind_eq _ _ = false

-- `h.kind == "unchanged"`
abbrev pub is_unchanged : Kind → Bool
is_unchanged Kind.unchanged = true
is_unchanged _ = false

-- `h.status == "pending"`
abbrev pub is_pending : Status → Bool
is_pending Status.pending = true
is_pending _ = false

-- `DiffHunk(kind=…, original=…, proposed=…)`, every other field at its default
abbrev pub plain_hunk : Kind → String → String → DiffHunk
plain_hunk k original proposed = record {
  kind = k;
  original = original;
  proposed = proposed;
  id = none;
  orig_start = none;
  orig_end = none;
  new_start = none;
  new_end = none;
  orig_line_count = none;
  new_line_count = none;
}
