-- ===== src/NotesUi/Listing.antt =====
-- mcp/toolbridge_mcp/tools/notes_ui.py: `list_notes_ui` and `delete_note_ui`, over the note tools. The
-- clock is `now` in the first request and `later` in the second.
use Prim.Native.String.{◌++◌ as ◌<>◌}
use toolbridge_api.Prelude.{
  ℕ, zero, suc, String, Bool, Option, none, some, List, length, ◌==◌, if◌then◌else◌,
}
use toolbridge_api.Prelude.Text.{str}
use toolbridge_api.Errors.{Result}
use toolbridge_api.Dict.{Dict, lookup}
use toolbridge_api.Notes.Types.{Json, Note, NotesListResponse}
use toolbridge_api.Requests.Types.{AccessToken, Settings, Http, Jose, Action, ◌>>>=◌, lift}
use toolbridge_api.Ui.Views.{View}
use toolbridge_api.Ui.Resources.{UiFormat, Block, respond}
use toolbridge_api.NoteTools.Tools.{list_notes, delete_note}

-- `s[:n]`
abbrev pub take_text : ℕ → String → String
take_text zero s = ""
take_text (suc n) String.[] = ""
take_text (suc n) (String.◌∷◌ c s) = String.◌∷◌ c (take_text n s)

-- `str(b)`
abbrev bool_text : Bool → String
bool_text b = if b then "True" else "False"

-- `what` is the name of the items
abbrev more_text : String → Option String → String
more_text what none = ""
more_text what (some next_cursor) =
    if next_cursor == ""
    then ""
    else "\nMore " <> (what <> ("s available (cursor: " <> (take_text 20 next_cursor <> "...)")))

abbrev pub list_summary : String → ℕ → Bool → NotesListResponse → String
list_summary what limit include_deleted response =
    "Displaying "
    <> (str (length response.items)
        <> (" "
            <> (what
                <> ("(s) (limit="
                    <> (str limit
                        <> (", include_deleted="
                            <> (bool_text include_deleted
                                <> (")" <> more_text what response.next_cursor))))))))

-- `str_json` is `str` of the value with that JSON text.
module _ (str_json : String → String) where
  -- a value inside an f-string
  abbrev value_text : Json → String
  value_text Json.null = "None"
  value_text (Json.text s) = s
  value_text (Json.other b s) = str_json s

  -- `item.payload.get("title", default)`
  abbrev pub title_text : Note → String → String
  title_text item default = elim (lookup "title" item.payload) [
    | none ↦ default
    | some v ↦ value_text v
  ]

module _ (loads : String → Result (Dict Json)) (loads_value : String → Result Json)
    (str_json : String → String) (http : Http) (jose : Jose) (settings : Settings) (now later : ℕ)
    (token : Result AccessToken) where
  unfoldable pub list_notes_ui : ℕ → Bool → UiFormat → Action http.State (List Block)
  list_notes_ui limit include_deleted f w =
      (list_notes loads loads_value http jose settings now token limit none include_deleted
          >>>= λ response. lift (
              respond "ui://toolbridge/notes/list"
                (View.notes_list response.items limit include_deleted)
                (list_summary "note" limit include_deleted response) f none none))
        w

  unfoldable pub delete_note_ui : String → ℕ → Bool → UiFormat → Action http.State (List Block)
  delete_note_ui uid limit include_deleted f w =
      (delete_note loads loads_value http jose settings now token uid >>>= λ deleted_note.
      list_notes loads loads_value http jose settings later token limit none include_deleted
      >>>= λ response. lift (
          respond "ui://toolbridge/notes/list"
            (View.notes_list response.items limit include_deleted)
            ("Deleted '"
              <> (title_text str_json deleted_note "Note"
                  <> ("' - " <> (str (length response.items) <> " note(s) remaining"))))
            f none none))
        w
