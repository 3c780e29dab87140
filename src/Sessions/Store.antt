-- ===== src/Sessions/Store.antt =====
-- mcp/toolbridge_mcp/note_edit_sessions.py: the operations on the sessions. The session identifier
-- of `uuid4`, the clock and the matcher of `difflib` are arguments.
use toolbridge_api.Prelude.{
  ℕ, ◌+◌, ◌-◌, String, Bool, false, not, ◌&&◌, Option, none, some, List, [], ◌∷◌, map, ◌==◌, ltb,
  length, any, filter, if◌then◌else◌,
}
use toolbridge_api.Prelude.Strip.{strip}
use toolbridge_api.Errors.{Result, ok, err, ◌>>=◌}
use toolbridge_api.Dict.{Dict, lookup, insert, erase}
use toolbridge_api.Diff.Types.{Kind, Status, DiffHunk, HunkDecision, is_unchanged, is_pending}
use toolbridge_api.Diff.Matcher.{Matcher}
use toolbridge_api.Diff.Compute.{compute_line_diff}
use toolbridge_api.Diff.Annotate.{annotate_hunks_with_ids}
use toolbridge_api.Diff.Apply.{or_empty, apply_hunk_decisions}
use toolbridge_api.Notes.Types.{Note, text_or}
use toolbridge_api.Sessions.Types.{NoteEditHunkState, NoteEditSession, Sessions}

-- Unchanged hunks start accepted, changed ones pending.
abbrev pub initial_status : Kind → Status
initial_status k = if is_unchanged k then Status.accepted else Status.pending

abbrev pub hunk_state : DiffHunk → NoteEditHunkState
hunk_state h = record {
  id = or_empty h.id;
  kind = h.kind;
  original = h.original;
  proposed = h.proposed;
  status = initial_status h.kind;
  revised_text = none;
  orig_start = h.orig_start;
  orig_end = h.orig_end;
  new_start = h.new_start;
  new_end = h.new_end;
}

abbrev hunk_states : Option (List DiffHunk) → List NoteEditHunkState
hunk_states none = []
hunk_states (some hunks) = map hunk_state hunks

unfoldable pub create_session :
    String
    → ℕ
    → Note
    → String
    → Option String
    → Option String
    → Option (List DiffHunk)
    → Sessions
    → Result (NoteEditSession × Sessions)
create_session session_id now note proposed_content summary user_id hunks sessions =
    text_or note.payload "title" "Untitled note" >>= λ title.
    text_or note.payload "content" "" >>= λ content.
    let session : NoteEditSession = record {
      id = session_id;
      note_uid = note.uid;
      base_version = note.version;
      title = strip title;
      original_content = content;
      proposed_content = proposed_content;
      summary = summary;
      created_at = now;
      created_by = user_id;
      hunks = hunk_states hunks;
      current_content = none;
    } in
    ok (session, insert session_id session sessions)

unfoldable pub get_session : String → Sessions → Option NoteEditSession
get_session edit_id sessions = lookup edit_id sessions

unfoldable pub discard_session : String → Sessions → Option NoteEditSession × Sessions
discard_session edit_id sessions = (lookup edit_id sessions, erase edit_id sessions)

-- `now - session.created_at > max_age`
abbrev pub is_expired : ℕ → ℕ → NoteEditSession → Bool
is_expired now max_age session = ltb max_age (now - session.created_at)

-- the identifiers of the expired sessions
abbrev pub expired_ids : ℕ → ℕ → Sessions → List String
expired_ids now max_age [] = []
expired_ids now max_age ((session_id, session) ∷ rest) =
    let more = expired_ids now max_age rest in
    if is_expired now max_age session then session_id ∷ more else more

abbrev pub delete_all : List String → Sessions → Sessions
delete_all [] sessions = sessions
delete_all (session_id ∷ ids) sessions = delete_all ids (erase session_id sessions)

unfoldable pub cleanup_expired_sessions : ℕ → ℕ → Sessions → ℕ × Sessions
cleanup_expired_sessions now max_age sessions =
    let expired = expired_ids now max_age sessions in (length expired, delete_all expired sessions)

abbrev pub get_session_count : Sessions → ℕ
get_session_count sessions = length sessions

-- a changed hunk that is pending
abbrev pub is_pending_hunk : NoteEditHunkState → Bool
is_pending_hunk h = is_pending h.status && not (is_unchanged h.kind)

-- The decisions map, built hunk by hunk. A hunk with an empty identifier is left out.
abbrev pub add_decision : NoteEditHunkState → Dict HunkDecision → Dict HunkDecision
add_decision h decisions =
    if h.id == ""
    then decisions
    else insert h.id (record { status = h.status; revised_text = h.revised_text }) decisions

unfoldable pub decisions_from : Dict HunkDecision → List NoteEditHunkState → Dict HunkDecision
decisions_from decisions [] = decisions
decisions_from decisions (h ∷ hunks) = decisions_from (add_decision h decisions) hunks

-- `DiffHunk(kind=h.kind, …)`, without the internal line counts
abbrev pub copy_hunk : DiffHunk → DiffHunk
copy_hunk h = record h { orig_line_count = none; new_line_count = none }

-- the value behind `except ValueError`
abbrev pub content_or_none : Result String → Option String
content_or_none (ok content) = some content
content_or_none (err e) = none

-- `hunk.revised_text`, which only a revision keeps
abbrev pub revision : Status → Option String → Option String
revision Status.revised text = text
revision _ text = none

-- The first hunk with the identifier gets the status.
unfoldable pub update_hunk :
    String → Status → Option String → List NoteEditHunkState → List NoteEditHunkState
update_hunk hunk_id status text [] = []
update_hunk hunk_id status text (h ∷ hunks) =
    let rest = update_hunk hunk_id status text hunks in
    if h.id == hunk_id
    then record h { status = status; revised_text = revision status text } ∷ hunks
    else h ∷ rest

module _ (get_opcodes : Matcher) where
  -- The content that the decisions make, from the diff of the full texts.
  unfoldable pub merged_content : NoteEditSession → Result String
  merged_content session =
      let full_hunks =
        annotate_hunks_with_ids (
          compute_line_diff get_opcodes session.original_content session.proposed_content 5
            false) in
      apply_hunk_decisions (map copy_hunk full_hunks) (decisions_from [] session.hunks)

  unfoldable pub recompute_current_content : NoteEditSession → NoteEditSession
  recompute_current_content session =
      if any is_pending_hunk session.hunks
      then record session { current_content = none }
      else record session { current_content = content_or_none (merged_content session) }

  -- The session after the update, and the sessions with it.
  unfoldable pub set_hunk_status :
      String → String → Status → Option String → Sessions → Option NoteEditSession × Sessions
  set_hunk_status edit_id hunk_id status revised_text sessions = elim (lookup edit_id sessions) [
    | none ↦ (none, sessions)
    | some session ↦
        let updated =
          recompute_current_content
            (record session { hunks = update_hunk hunk_id status revised_text session.hunks }) in
        (some updated, insert edit_id updated sessions)
  ]

-- `[h for h in session.hunks if …]`, or nothing for a session that is not there
unfoldable pub get_pending_hunks : String → Sessions → List NoteEditHunkState
get_pending_hunks edit_id sessions = elim (lookup edit_id sessions) [
  | none ↦ []
  | some session ↦ filter is_pending_hunk session.hunks
]

pub record HunkCounts : Type 0 where
  pub pending : ℕ
  pub accepted : ℕ
  pub rejected : ℕ
  pub revised : ℕ

abbrev pub count_status : Status → HunkCounts → HunkCounts
count_status Status.pending c = record c { pending = c.pending + 1 }
count_status Status.accepted c = record c { accepted = c.accepted + 1 }
count_status Status.rejected c = record c { rejected = c.rejected + 1 }
count_status Status.revised c = record c { revised = c.revised + 1 }

unfoldable pub count_hunks : HunkCounts → List NoteEditHunkState → HunkCounts
count_hunks counts [] = counts
count_hunks counts (h ∷ hunks) =
    count_hunks (if is_unchanged h.kind then counts else count_status h.status counts) hunks

abbrev pub no_counts : HunkCounts
no_counts = record { pending = 0; accepted = 0; rejected = 0; revised = 0 }

unfoldable pub get_hunk_counts : String → Sessions → HunkCounts
get_hunk_counts edit_id sessions = elim (lookup edit_id sessions) [
  | none ↦ no_counts
  | some session ↦ count_hunks no_counts session.hunks
]
