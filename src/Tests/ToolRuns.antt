-- ===== src/Tests/ToolRuns.antt =====
-- mcp/toolbridge_mcp/tools/notes_ui.py at a concrete note.
use toolbridge_api.Prelude.{◌≡◌, refl, none, some, List, [], ◌∷◌, map, filter}
use toolbridge_api.Errors.{ok}
use toolbridge_api.Dict.{lookup}
use toolbridge_api.Diff.Types.{Kind, Status, DiffHunk}
use toolbridge_api.Diff.Compute.{counted_hunk}
use toolbridge_api.Notes.Types.{text_or}
use toolbridge_api.Sessions.Types.{NoteEditSession, Sessions}
use toolbridge_api.Sessions.Store.{set_hunk_status}
use toolbridge_api.Sessions.UpdateEach.{ids_of}
use toolbridge_api.Sessions.EachHunk.{decide_each}
use toolbridge_api.Ui.Resources.{UiFormat, Block}
use toolbridge_api.NotesUi.Display.{truncate_unchanged_for_display}
use toolbridge_api.NotesUi.Texts.{update_of}
use toolbridge_api.NotesUi.Edit.{decide_hunk}
use toolbridge_api.NotesUi.Apply.{apply_note_edit}
use toolbridge_api.NotesUi.Shown.{frame, is_changed, truncate_unchanged_for_display_lem}
use toolbridge_api.NotesUi.Lifecycle.{apply_note_edit-answers, decide_hunk-stores}
use toolbridge_api.NotesUi.EndToEnd.{new_session, accept-apply, reject-apply}
use toolbridge_api.Tests.Fixtures.{
  prefix_matcher, prefix_matcher-IsMatcher, old_text, new_text, sample_note, session_with,
  open_session, one_session, one_note_api,
}
use toolbridge_api.Tests.SessionRuns.{found, open_session-IsPaired, has_hunks}

abbrev long_hunks : List DiffHunk
long_hunks = counted_hunk Kind.unchanged "a\nb\nc\nd" "a\nb\nc\nd" 4 4 ∷ []

truncate_example :
    (map frame (truncate_unchanged_for_display 2 long_hunks) ≡ map frame long_hunks)
    × (filter is_changed (truncate_unchanged_for_display 2 long_hunks)
        ≡ filter is_changed long_hunks)
truncate_example = truncate_unchanged_for_display_lem 2 long_hunks

answers_example :
    (blocks : List Block) × ((apply_note_edit prefix_matcher one_note_api "e1" UiFormat.html
        one_session sample_note).0
      ≡ ok blocks)
answers_example =
    apply_note_edit-answers prefix_matcher one_note_api "e1" UiFormat.html one_session sample_note

-- the session with its changed hunk accepted
abbrev pub ready_session : NoteEditSession
ready_session = session_with Status.accepted (some new_text)

abbrev pub ready_sessions : Sessions
ready_sessions = ("e1", ready_session) ∷ []

pub ready_found : lookup "e1" ready_sessions ≡ some ready_session
unfolding lookup
ready_found = refl

stores_example :
    (decide_hunk prefix_matcher one_note_api "Accepted" Status.accepted none "e1" "h2" UiFormat.html
      one_session sample_note).1
    ≡ (set_hunk_status prefix_matcher "e1" "h2" Status.accepted none one_session).1
stores_example =
    decide_hunk-stores prefix_matcher one_note_api "Accepted" Status.accepted none "e1" "h2"
      UiFormat.html one_session sample_note

pub titled : text_or sample_note.payload "title" "Untitled note" ≡ ok " Plan "
unfolding text_or
titled = refl

-- the session that the edit makes
abbrev made_session : NoteEditSession
made_session =
    new_session prefix_matcher one_note_api "e2" 20 none new_text none UiFormat.both sample_note
      " Plan " old_text

accept-apply_example :
    (apply_note_edit prefix_matcher one_note_api "e1" UiFormat.html
      (decide_each prefix_matcher "e1" Status.accepted (ids_of open_session.hunks) one_session)
      sample_note).2
    ≡ (one_note_api.update_note (update_of open_session sample_note new_text) sample_note).1
accept-apply_example =
    accept-apply prefix_matcher prefix_matcher-IsMatcher one_note_api "e1" UiFormat.html
      open_session one_session sample_note sample_note sample_note found open_session-IsPaired
      has_hunks refl refl

reject-apply_example :
    (apply_note_edit prefix_matcher one_note_api "e1" UiFormat.html
      (decide_each prefix_matcher "e1" Status.rejected (ids_of open_session.hunks) one_session)
      sample_note).2
    ≡ (one_note_api.update_note (update_of open_session sample_note old_text) sample_note).1
reject-apply_example =
    reject-apply prefix_matcher prefix_matcher-IsMatcher one_note_api "e1" UiFormat.html
      open_session one_session sample_note sample_note sample_note found open_session-IsPaired
      has_hunks refl refl
