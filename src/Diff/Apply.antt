-- ===== src/Diff/Apply.antt =====
-- mcp/toolbridge_mcp/utils/diff.py: `apply_hunk_decisions` and `_join_segments`.
use Prim.Native.String.{◌++◌ as ◌<>◌}
use toolbridge_api.Prelude.{String, Option, none, some, List, [], ◌∷◌}
use toolbridge_api.Prelude.Text.{join}
use toolbridge_api.Errors.{Exc, Result, ok, err, ◌>>=◌}
use toolbridge_api.Dict.{Dict, lookup}
use toolbridge_api.Diff.Types.{Kind, Status, DiffHunk, HunkDecision}

-- `x or ""` on an optional text
abbrev pub or_empty : Option String → String
or_empty none = ""
or_empty (some s) = s

abbrev pub pending_error : String → Exc
pending_error hunk_id = Exc.value_error ("Hunk " <> (hunk_id <> " is pending - cannot apply"))

-- What a changed hunk appends, `none` for nothing. `original` and `proposed` are what a rejection
-- and an acceptance append; a revision appends its text, if it has one.
abbrev pub decided :
    String → Option HunkDecision → Option String → Option String → Result (Option String)
decided hunk_id none original proposed = err (pending_error hunk_id)
decided hunk_id (some d) original proposed = elim d.status [
  | Status.pending ↦ err (pending_error hunk_id)
  | Status.accepted ↦ ok proposed
  | Status.rejected ↦ ok original
  | Status.revised ↦ ok d.revised_text
]

-- The body of the loop: what one hunk appends to the segments.
abbrev pub segment_at : Kind → DiffHunk → Option HunkDecision → Result (Option String)
segment_at Kind.unchanged h d = ok (some h.original)
segment_at Kind.added h d = decided (or_empty h.id) d none (some h.proposed)
segment_at Kind.removed h d = decided (or_empty h.id) d (some h.original) none
segment_at Kind.modified h d = decided (or_empty h.id) d (some h.original) (some h.proposed)

abbrev pub segment : Dict HunkDecision → DiffHunk → Result (Option String)
segment decisions h = segment_at h.kind h (lookup (or_empty h.id) decisions)

abbrev pub append_segment : Option String → List String → List String
append_segment none segments = segments
append_segment (some s) segments = s ∷ segments

-- The segments of the hunks, in their order; the first error ends the loop.
unfoldable pub segments_of : Dict HunkDecision → List DiffHunk → Result (List String)
segments_of decisions [] = ok []
segments_of decisions (h ∷ hunks) =
    let rest = segments_of decisions hunks in
    segment decisions h >>= λ s. rest >>= λ segments. ok (append_segment s segments)

-- `_join_segments`, whose filter drops nothing from a list of texts
abbrev pub join_segments : List String → String
join_segments segments = join segments

unfoldable pub apply_hunk_decisions : List DiffHunk → Dict HunkDecision → Result String
unfolding segments_of lookup
apply_hunk_decisions hunks decisions =
    segments_of decisions hunks >>= λ segments. ok (join_segments segments)
