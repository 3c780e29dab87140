-- ===== src/NoteTools/Tools.antt =====
-- mcp/toolbridge_mcp/tools/notes.py: the tools. `loads` is `json.loads` on the text of an object and
-- `loads_value` on any text; an error of theirs is a decoding error.
use Prim.Native.String.{◌++◌ as ◌<>◌}
use toolbridge_api.Prelude.{
  ℕ, String, Bool, true, Option, none, some, [], ◌∷◌, ◌++◌, ◌==◌, if◌then◌else◌,
}
use toolbridge_api.Prelude.Text.{str}
use toolbridge_api.Errors.{Exc, Result, ok, err, exc_text, ◌>>=◌}
use toolbridge_api.Dict.{Dict, insert}
use toolbridge_api.Notes.Types.{Json, is_truthy, Note, NotesListResponse}
use toolbridge_api.Requests.Types.{
  AccessToken, Settings, Response, Http, Jose, World, Action, ◌>>>=◌, lift,
}
use toolbridge_api.Requests.Calls.{call_get, call_post, call_put, call_patch, call_delete}
use toolbridge_api.Ui.Resources.{update_dict}
use toolbridge_api.NotesUi.Api.{Api}

-- an argument that is a dict, or the JSON text of one
pub data Fields : Type 0 where
  dict : Dict Json → Fields
  encoded : String → Fields

-- `{"includeDeleted": "true"}` where it is asked for
abbrev pub deleted_param : Bool → Dict Json
deleted_param include_deleted =
    if include_deleted then ("includeDeleted", Json.text "true") ∷ [] else []

abbrev pub cursor_param : Option String → Dict Json
cursor_param none = []
cursor_param (some cursor) = if cursor == "" then [] else ("cursor", Json.text cursor) ∷ []

abbrev pub list_params : ℕ → Option String → Bool → Dict Json
list_params limit cursor include_deleted =
    ("limit", Json.other true (str limit)) ∷ (cursor_param cursor ++ deleted_param include_deleted)

abbrev pub note_path : String → String
note_path uid = "/v1/notes/" <> uid

-- `raise ValueError(f"Invalid JSON string for …: {e}")`
abbrev pub decoded : {A : Type 0} → String → Result A → Result A
decoded name (ok a) = ok a
decoded name (err e) =
    err (Exc.value_error ("Invalid JSON string for " <> (name <> (": " <> exc_text e))))

-- the additional fields of an update, as the tool's argument
abbrev pub given : Option (Dict Json) → Option Fields
given none = none
given (some d) = some (Fields.dict d)

module _ (loads : String → Result (Dict Json)) (loads_value : String → Result Json) where
  abbrev pub fields_of : String → Fields → Result (Dict Json)
  fields_of name (Fields.dict d) = ok d
  fields_of name (Fields.encoded s) = decoded name (loads s)

  -- `if additional_fields: …; payload.update(additional_fields)`; a JSON text is tested before it is
  -- decoded
  abbrev pub add_fields : Dict Json → Option Fields → Result (Dict Json)
  add_fields payload none = ok payload
  add_fields payload (some (Fields.dict d)) = ok (update_dict payload d)
  add_fields payload (some (Fields.encoded s)) =
      if s == ""
      then ok payload
      else (decoded "additional_fields" (loads s) >>= λ d. ok (update_dict payload d))

  -- a value, or the JSON text of one, set under the key
  abbrev pub add_value : String → Dict Json → Option Json → Result (Dict Json)
  add_value key payload none = ok payload
  add_value key payload (some (Json.text s)) =
      if s == ""
      then ok payload
      else (decoded key (loads_value s) >>= λ v. ok (insert key v payload))
  add_value key payload (some v) = ok (if is_truthy v then insert key v payload else payload)

  abbrev pub create_payload : String → String → Option Json → Option Fields → Result (Dict Json)
  create_payload title content tags additional_fields =
      add_value "tags" (("title", Json.text title) ∷ ("content", Json.text content) ∷ []) tags
      >>= λ payload. add_fields payload additional_fields

  -- The body of the update. The title is a text, or what the edit tools pass on.
  unfoldable pub update_payload : String → Json → String → Option Fields → Result (Dict Json)
  update_payload uid title content additional_fields =
      add_fields (("uid", Json.text uid) ∷ ("title", title) ∷ ("content", Json.text content) ∷ [])
        additional_fields

  module _ (http : Http) (jose : Jose) (settings : Settings) (now : ℕ)
      (token : Result AccessToken) where
    abbrev pub as_note : Action http.State Response → Action http.State Note
    as_note m w = (m >>>= λ response. lift response.note) w

    unfoldable pub list_notes : ℕ → Option String → Bool → Action http.State NotesListResponse
    list_notes limit cursor include_deleted w =
        (call_get http jose settings now token "/v1/notes"
              (list_params limit cursor include_deleted)
            >>>= λ response. lift response.notes)
          w

    unfoldable pub get_note : String → Bool → Action http.State Note
    get_note uid include_deleted =
        as_note
          (call_get http jose settings now token (note_path uid) (deleted_param include_deleted))

    unfoldable pub create_note :
        String → String → Option Json → Option Fields → Action http.State Note
    create_note title content tags additional_fields w =
        (lift (create_payload title content tags additional_fields) >>>= λ payload.
        as_note (call_post http jose settings now token "/v1/notes" payload))
          w

    unfoldable pub update_note :
        String → Json → String → Option ℕ → Option Fields → Action http.State Note
    update_note uid title content if_match additional_fields w =
        (lift (update_payload uid title content additional_fields) >>>= λ payload.
        as_note (call_put http jose settings now token (note_path uid) payload if_match))
          w

    unfoldable pub patch_note : String → Fields → Action http.State Note
    patch_note uid updates w =
        (lift (fields_of "updates" updates) >>>= λ payload.
        as_note (call_patch http jose settings now token (note_path uid) payload))
          w

    unfoldable pub delete_note : String → Action http.State Note
    delete_note uid = as_note (call_delete http jose settings now token (note_path uid))

    unfoldable pub archive_note : String → Action http.State Note
    archive_note uid =
        as_note (call_post http jose settings now token (note_path uid <> "/archive") [])

    unfoldable pub process_note : String → String → Option Json → Action http.State Note
    process_note uid action metadata w =
        (lift (add_value "metadata" (("action", Json.text action) ∷ []) metadata) >>>= λ payload.
        as_note (call_post http jose settings now token (note_path uid <> "/process") payload))
          w

    -- the two tools that the edit flow uses, as its `Api`
    abbrev pub notes_api : Api
    notes_api = record {
      State = World http.State;
      get_note = get_note;
      update_note = λ u. update_note u.uid u.title u.content u.if_match (given u.additional_fields);
    }
