-- ===== src/NotesUi/Edit.antt =====
-- mcp/toolbridge_mcp/tools/notes_ui.py: the tools of the edit flow, over the sessions and an `Api`.
-- A tool returns its blocks, or the exception that it lets through, with the sessions and the state
-- behind the API as it leaves them. A tool runs alone, from its call to its answer.
use Prim.Native.String.{◌++◌ as ◌<>◌}
use toolbridge_api.Prelude.{ℕ, String, false, Option, none, some, List, [], ◌∷◌, if◌then◌else◌}
use toolbridge_api.Prelude.Text.{str}
use toolbridge_api.Prelude.Strip.{strip}
use toolbridge_api.Errors.{Result, ok, err, ◌>>=◌}
use toolbridge_api.Diff.Types.{Status, DiffHunk}
use toolbridge_api.Diff.Matcher.{Matcher}
use toolbridge_api.Diff.Compute.{compute_line_diff}
use toolbridge_api.Diff.Annotate.{annotate_hunks_with_ids}
use toolbridge_api.Notes.Types.{Json, Note, text_or}
use toolbridge_api.Sessions.Types.{NoteEditSession, Sessions}
use toolbridge_api.Sessions.Store.{
  create_session, discard_session, set_hunk_status, get_hunk_counts,
}
use toolbridge_api.Ui.Views.{View}
use toolbridge_api.Ui.Resources.{UiFormat, Block, wants_dom, respond}
use toolbridge_api.NotesUi.Display.{truncate_unchanged_for_display, max_unchanged_lines_display}
use toolbridge_api.NotesUi.Texts.{
  card_metadata, text_or_default, error_response, not_found, edit_uri, session_error_uri,
  counts_text,
}
use toolbridge_api.NotesUi.Api.{Api}

module _ (get_opcodes : Matcher) where
  -- the hunks that a new session starts from
  unfoldable pub display_hunks : String → String → List DiffHunk
  display_hunks original_content new_content =
      truncate_unchanged_for_display max_unchanged_lines_display (
        annotate_hunks_with_ids
          (compute_line_diff get_opcodes original_content new_content 5 false))

  -- the answer of `edit_note_ui`
  unfoldable pub edit_response :
      String → String → Option String → UiFormat → Note → NoteEditSession → Result (List Block)
  edit_response uid title summary f note session =
      respond (edit_uri uid session.id) (View.edit_diff note session.hunks session.id summary)
        (text_or_default summary
          ("Proposed changes to '" <> (title <> ("' (v" <> (str note.version <> ")")))))
        f (card_metadata f)
        (if wants_dom f
          then some (("note_uid", Json.text uid) ∷ ("edit_id", Json.text session.id) ∷ [])
          else none)

  -- What `edit_note_ui` does with the note that it fetched.
  unfoldable pub propose_edit :
      String
      → ℕ
      → Option String
      → String
      → String
      → Option String
      → UiFormat
      → Note
      → Sessions
      → Result (List Block × Sessions)
  propose_edit session_id now user_id uid new_content summary f note sessions =
      text_or note.payload "title" "Untitled note" >>= λ title.
      text_or note.payload "content" "" >>= λ original_content.
      create_session session_id now note new_content summary user_id
        (some (display_hunks original_content new_content)) sessions
      >>= λ (session, stored).
          edit_response uid (strip title) summary f note session >>= λ blocks. ok (blocks, stored)

module _ (get_opcodes : Matcher) (api : Api) where
  abbrev pub Tool : Type 0
  Tool = Sessions → api.State → Result (List Block) × Sessions × api.State

  abbrev pub proposed :
      Result (List Block × Sessions)
      → Sessions
      → api.State
      → Result (List Block) × Sessions × api.State
  proposed (ok (blocks, stored)) sessions st = (ok blocks, stored, st)
  proposed (err e) sessions st = (err e, sessions, st)

  -- `session_id` and `now` are what `uuid4` and the clock give; `user_id` is the token's, if any.
  unfoldable pub edit_fetched :
      String
      → ℕ
      → Option String
      → String
      → String
      → Option String
      → UiFormat
      → Sessions
      → Result Note × api.State
      → Result (List Block) × Sessions × api.State
  edit_fetched session_id now user_id uid new_content summary f sessions (err e, st) =
      (err e, sessions, st)
  edit_fetched session_id now user_id uid new_content summary f sessions (ok note, st) =
      proposed
        (propose_edit get_opcodes session_id now user_id uid new_content summary f note sessions)
        sessions st

  unfoldable pub edit_note_ui :
      String → ℕ → Option String → String → String → Option String → UiFormat → Tool
  edit_note_ui session_id now user_id uid new_content summary f sessions st =
      edit_fetched session_id now user_id uid new_content summary f sessions
        (api.get_note uid false st)

  -- The tools that decide on one hunk, which differ in the status and in the verb of the summary.
  unfoldable pub decide_hunk : String → Status → Option String → String → String → UiFormat → Tool
  decide_hunk verb status revised_text edit_id hunk_id f sessions st =
      let (updated, stored) =
        set_hunk_status get_opcodes edit_id hunk_id status revised_text sessions in
      elim updated [
        | none ↦ (error_response (not_found edit_id) (session_error_uri edit_id) none f, stored, st)
        | some session ↦
            let counts = get_hunk_counts edit_id stored in
            let (fetched, st') = api.get_note session.note_uid false st in
            elim fetched [
              | err e ↦ (err e, stored, st')
              | ok note ↦ (
                respond (edit_uri session.note_uid edit_id)
                    (View.edit_diff note session.hunks edit_id session.summary)
                    (counts_text verb hunk_id counts) f (card_metadata f) none,
                stored,
                st',
              )
            ]
      ]

  abbrev pub accept_note_edit_hunk : String → String → UiFormat → Tool
  accept_note_edit_hunk edit_id hunk_id f =
      decide_hunk "Accepted" Status.accepted none edit_id hunk_id f

  abbrev pub reject_note_edit_hunk : String → String → UiFormat → Tool
  reject_note_edit_hunk edit_id hunk_id f =
      decide_hunk "Rejected" Status.rejected none edit_id hunk_id f

  abbrev pub revise_note_edit_hunk : String → String → String → UiFormat → Tool
  revise_note_edit_hunk edit_id hunk_id revised_text f =
      decide_hunk "Revised" Status.revised (some revised_text) edit_id hunk_id f

  unfoldable pub discard_note_edit : String → UiFormat → Tool
  discard_note_edit edit_id f sessions st =
      let (discarded, rest) = discard_session edit_id sessions in
      let uri = "ui://toolbridge/notes/edit/" <> (edit_id <> "/discarded") in
      elim discarded [
        | none ↦ (
          respond uri (View.edit_discarded "note")
              ("Edit session '" <> (edit_id <> "' was already discarded or expired.")) f none none,
          rest,
          st,
        )
        | some session ↦ (
          respond uri (View.edit_discarded session.title)
              ("Discarded pending edit session for '" <> (session.title <> "'.")) f none none,
          rest,
          st,
        )
      ]
