-- ===== src/NotesUi/Apply.antt =====
-- mcp/toolbridge_mcp/tools/notes_ui.py: `apply_note_edit`.
use Prim.Native.String.{◌++◌ as ◌<>◌}
use toolbridge_api.Prelude.{
  String, false, Option, none, some, List, nat_eq, length, filter, is_empty, if◌then◌else◌,
}
use toolbridge_api.Prelude.Text.{str}
use toolbridge_api.Errors.{Exc, Result, ok, err, exc_text}
use toolbridge_api.Diff.Matcher.{Matcher}
use toolbridge_api.Notes.Types.{Note}
use toolbridge_api.Sessions.Types.{NoteEditSession, Sessions}
use toolbridge_api.Sessions.Store.{get_session, discard_session, is_pending_hunk, merged_content}
use toolbridge_api.Ui.Views.{View}
use toolbridge_api.Ui.Resources.{UiFormat, Block, respond}
use toolbridge_api.NotesUi.Api.{Api}
use toolbridge_api.NotesUi.Texts.{
  card_metadata, error_response, not_found, edit_uri, session_error_uri, update_of, conflict_text,
  pending_text,
}
use toolbridge_api.NotesUi.Edit.{Tool}

-- The content to apply: the session's, or else the merged content made anew.
abbrev pub content_to_apply : Matcher → NoteEditSession → Option String → Result String
content_to_apply get_opcodes session (some content) = ok content
content_to_apply get_opcodes session none = merged_content get_opcodes session

module _ (edit_id : String) (f : UiFormat) where
  -- the two `except` clauses
  abbrev pub handle : NoteEditSession → Exc → Result (List Block)
  handle session (Exc.http_status_error code text message) =
      error_response ("Failed to update note: " <> (str code <> (" - " <> text)))
        (edit_uri session.note_uid edit_id <> "/error") (some session.note_uid) f
  handle session e =
      error_response ("Unexpected error applying note edit: " <> exc_text e)
        (session_error_uri edit_id) none f

module _ (api : Api) (edit_id : String) (f : UiFormat) where
  -- from the answer to the update on
  unfoldable pub finish :
      NoteEditSession
      → Result Note
      → Sessions
      → api.State
      → Result (List Block) × Sessions × api.State
  finish session (err e) sessions st = (handle edit_id f session e, sessions, st)
  finish session (ok updated) sessions st = (
    respond ("ui://toolbridge/notes/" <> updated.uid) (View.edit_success updated)
        ("Applied note edit to '"
          <> (session.title <> ("'. New version: v" <> (str updated.version <> "."))))
        f (card_metadata f) none,
    (discard_session edit_id sessions).1,
    st,
  )

  -- the update with the content
  unfoldable pub send :
      NoteEditSession
      → Note
      → Result String
      → Sessions
      → api.State
      → Result (List Block) × Sessions × api.State
  send session current (err e) sessions st = (handle edit_id f session e, sessions, st)
  send session current (ok content) sessions st =
      let (updated, st') = api.update_note (update_of session current content) st in
      finish session updated sessions st'

module _ (get_opcodes : Matcher) (api : Api) (edit_id : String) (f : UiFormat) where
  -- the checks on the version and on the pending hunks
  unfoldable pub check :
      NoteEditSession
      → Result Note
      → Sessions
      → api.State
      → Result (List Block) × Sessions × api.State
  check session (err e) sessions st = (handle edit_id f session e, sessions, st)
  check session (ok current) sessions st =
      let unresolved = filter is_pending_hunk session.hunks in
      let sent =
        send api edit_id f session current
          (content_to_apply get_opcodes session session.current_content) sessions st in
      if nat_eq current.version session.base_version
      then if is_empty unresolved then sent else (
        error_response (pending_text (length unresolved))
            (edit_uri session.note_uid edit_id <> "/pending") (some session.note_uid) f,
        sessions,
        st,
      )
      else (
        error_response (conflict_text session current)
            (edit_uri session.note_uid edit_id <> "/conflict") (some session.note_uid) f,
        (discard_session edit_id sessions).1,
        st,
      )

  -- for the session that was found, or none
  unfoldable pub apply_found :
      Sessions → api.State → Option NoteEditSession → Result (List Block) × Sessions × api.State
  apply_found sessions st none =
      (error_response (not_found edit_id) (session_error_uri edit_id) none f, sessions, st)
  apply_found sessions st (some session) =
      let (fetched, st') = api.get_note session.note_uid false st in
      check session fetched sessions st'

  unfoldable pub apply_note_edit : Tool get_opcodes api
  apply_note_edit sessions st = apply_found sessions st (get_session edit_id sessions)
