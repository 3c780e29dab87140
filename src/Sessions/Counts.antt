-- ===== src/Sessions/Counts.antt =====
-- mcp/toolbridge_mcp/note_edit_sessions.py: `get_hunk_counts` beside `get_pending_hunks`.
use toolbridge_api.Prelude.{
  ℕ, ◌+◌, String, ◌≡◌, inl, inr, not, none, some, List, [], ◌∷◌, arith, length, filter,
  Option-cases,
}
use toolbridge_api.Dict.{lookup}
use toolbridge_api.Diff.Types.{is_unchanged, Status}
use toolbridge_api.Sessions.Types.{NoteEditHunkState, Sessions}
use toolbridge_api.Sessions.Store.{
  HunkCounts, is_pending_hunk, count_status, count_hunks, no_counts, get_hunk_counts,
  get_pending_hunks,
}

abbrev pub total : HunkCounts → ℕ
total c = c.pending + c.accepted + c.rejected + c.revised

-- the changed hunks of a session
abbrev pub changed_hunks : String → Sessions → List NoteEditHunkState
changed_hunks edit_id sessions = elim (lookup edit_id sessions) [
  | none ↦ []
  | some session ↦ filter (λ h. not (is_unchanged h.kind)) session.hunks
]

total-count_status : (st : Status) (c : HunkCounts) → total (count_status st c) ≡ total c + 1
total-count_status Status.pending c = omega arith
total-count_status _ c = omega arith

total-count_hunks :
    (hs : List NoteEditHunkState) (c : HunkCounts)
    → total (count_hunks c hs)
      ≡ total c + length (filter (λ (h : NoteEditHunkState). not (is_unchanged h.kind)) hs)
unfolding count_hunks
total-count_hunks [] c = omega arith
total-count_hunks (h ∷ hs) c = ground (
  arith,
  total-count_hunks hs c,
  total-count_hunks hs (count_status h.status c),
  total-count_status h.status c,
)

pub pending-count_hunks :
    (hs : List NoteEditHunkState) (c : HunkCounts)
    → (count_hunks c hs).pending ≡ c.pending + length (filter is_pending_hunk hs)
unfolding count_hunks
pending-count_hunks [] c = omega arith
pending-count_hunks (h ∷ hs) c =
    ground (arith, pending-count_hunks hs c, pending-count_hunks hs (count_status h.status c))

-- For every session, known or not: the pending count is the number of hunks that
-- `get_pending_hunks` lists, and the four counts add up to the number of changed hunks.
pub get_hunk_counts_lem :
    (edit_id : String) (sessions : Sessions)
    → ((get_hunk_counts edit_id sessions).pending ≡ length (get_pending_hunks edit_id sessions))
      × (total (get_hunk_counts edit_id sessions) ≡ length (changed_hunks edit_id sessions))
unfolding get_hunk_counts get_pending_hunks
get_hunk_counts_lem edit_id sessions = elim (Option-cases (lookup edit_id sessions)) [
  | inl e ↦ ground (arith, e)
  | inr (s, e) ↦
      ground (arith, e, pending-count_hunks s.hunks no_counts, total-count_hunks s.hunks no_counts)
]
