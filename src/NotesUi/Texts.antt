-- ===== src/NotesUi/Texts.antt =====
-- mcp/toolbridge_mcp/tools/notes_ui.py: the texts, the URIs and the update that the tools of the edit
-- flow make.
use Prim.Native.String.{◌++◌ as ◌<>◌}
use toolbridge_api.Prelude.{
  ℕ, String, not, ◌||◌, Option, none, some, List, ◌==◌, filter, is_empty, if◌then◌else◌,
}
use toolbridge_api.Prelude.Text.{str}
use toolbridge_api.Errors.{Result}
use toolbridge_api.Dict.{Dict, lookup}
use toolbridge_api.Notes.Types.{Json, is_truthy, Note}
use toolbridge_api.Sessions.Types.{NoteEditSession}
use toolbridge_api.Sessions.Store.{HunkCounts}
use toolbridge_api.Ui.Views.{View}
use toolbridge_api.Ui.Dom.Design.{get_chat_metadata}
use toolbridge_api.Ui.Resources.{UiFormat, Block, wants_dom, respond}
use toolbridge_api.NotesUi.Api.{Update}

-- `get_chat_metadata(frame_style=Layout.CHAT_FRAME_CARD, max_width=Layout.MAX_WIDTH_DETAIL)`, only
-- for Remote DOM; the width is `None` and sets nothing
abbrev pub card_metadata : UiFormat → Option (Dict Json)
card_metadata f = if wants_dom f then some (get_chat_metadata "card" none) else none

abbrev pub text_or_default : Option String → String → String
text_or_default none default = default
text_or_default (some s) default = if s == "" then default else s

-- The answer with an error, whose view may name the note.
abbrev pub error_response : String → String → Option String → UiFormat → Result (List Block)
error_response error_msg uri note_uid f =
    respond uri (View.edit_error error_msg note_uid) error_msg f none none

abbrev pub not_found : String → String
not_found edit_id = "Edit session '" <> (edit_id <> "' not found or expired")

abbrev pub edit_uri : String → String → String
edit_uri note_uid edit_id = "ui://toolbridge/notes/" <> (note_uid <> ("/edit/" <> edit_id))

abbrev pub session_error_uri : String → String
session_error_uri edit_id = "ui://toolbridge/notes/edit/" <> (edit_id <> "/error")

-- `payload.get("title") or ""`, passed on as it is
abbrev pub value_or_empty : Option Json → Json
value_or_empty none = Json.text ""
value_or_empty (some v) = if is_truthy v then v else Json.text ""

-- `{k: v for k, v in payload.items() if k not in ("title", "content")}`
abbrev pub other_fields : Dict Json → Dict Json
other_fields payload = filter (λ (k, v). not (k == "title" || k == "content")) payload

-- `additional_fields if additional_fields else None`
abbrev pub fields_or_none : Dict Json → Option (Dict Json)
fields_or_none fields = if is_empty fields then none else some fields

-- the update that applies a session's content to the current note
abbrev pub update_of : NoteEditSession → Note → String → Update
update_of session current content = record {
  uid = session.note_uid;
  title = value_or_empty (lookup "title" current.payload);
  content = content;
  if_match = some session.base_version;
  additional_fields = fields_or_none (other_fields current.payload);
}

abbrev pub conflict_text : NoteEditSession → Note → String
conflict_text session current =
    "Note '"
    <> (session.title
        <> ("' was modified since the edit was proposed. Expected v"
            <> (str session.base_version
                <> (", found v"
                    <> (str current.version
                        <> ". Please re-run edit_note_ui to create a fresh diff.")))))

abbrev pub pending_text : ℕ → String
pending_text n =
    "There are "
    <> (str n
        <> " pending change(s). Please accept, reject, or revise each change before applying.")

abbrev pub counts_text : String → String → HunkCounts → String
counts_text verb hunk_id c =
    verb
    <> (" hunk "
        <> (hunk_id
            <> (". Status: "
                <> (str c.accepted
                    <> (" accepted, "
                        <> (str c.rejected
                            <> (" rejected, "
                                <> (str c.revised
                                    <> (" revised, " <> (str c.pending <> " pending."))))))))))
