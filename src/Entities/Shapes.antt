-- ===== src/Entities/Shapes.antt =====
-- What the tools of mcp/toolbridge_mcp/tools/tasks.py, comments.py, chats.py and chat_messages.py have
-- in common. They differ in the path, in the fields of what they create and replace, and in the name
-- of the record; the records have the fields of a note.
use toolbridge_api.Prelude.{ℕ, String, Bool, Option, none, some, [], ◌∷◌, ◌==◌, if◌then◌else◌}
use toolbridge_api.Errors.{Result}
use toolbridge_api.Dict.{Dict, insert}
use toolbridge_api.Notes.Types.{Json, Note, NotesListResponse}
use toolbridge_api.Requests.Types.{
  AccessToken, Settings, Response, Http, Jose, Action, ◌>>>=◌, lift,
}
use toolbridge_api.Requests.Calls.{call_get, call_post, call_put, call_patch, call_delete}
use toolbridge_api.NoteTools.Tools.{Fields, deleted_param, list_params, fields_of, add_value}

-- `if value: payload[key] = value`
abbrev pub add_text : String → Option String → Dict Json → Dict Json
add_text key none payload = payload
add_text key (some s) payload = if s == "" then payload else insert key (Json.text s) payload

-- `data = response.json()` and the record of it
abbrev pub entity : {S : Type 0} → Action S Response → Action S Note
entity m w = (m >>>= λ response. lift response.note) w

module _ (http : Http) (jose : Jose) (settings : Settings) (now : ℕ)
    (token : Result AccessToken) where
  abbrev pub list_at : String → ℕ → Option String → Bool → Action http.State NotesListResponse
  list_at path limit cursor include_deleted w =
      (call_get http jose settings now token path (list_params limit cursor include_deleted)
          >>>= λ response. lift response.notes)
        w

  abbrev pub get_at : String → Bool → Action http.State Note
  get_at path include_deleted =
      entity (call_get http jose settings now token path (deleted_param include_deleted))

  -- the payload, or what its decoding raises
  abbrev pub create_at : String → Result (Dict Json) → Action http.State Note
  create_at path payload w =
      (lift payload >>>= λ json. entity (call_post http jose settings now token path json)) w

  abbrev pub update_at : String → Result (Dict Json) → Option ℕ → Action http.State Note
  update_at path payload if_match w =
      (lift payload >>>= λ json. entity (call_put http jose settings now token path json if_match))
        w

  abbrev pub patch_at : String → Result (Dict Json) → Action http.State Note
  patch_at path updates w =
      (lift updates >>>= λ json. entity (call_patch http jose settings now token path json)) w

  abbrev pub delete_at : String → Action http.State Note
  delete_at path = entity (call_delete http jose settings now token path)

module _ (loads : String → Result (Dict Json)) (loads_value : String → Result Json) where
  -- `updates`, decoded where it is a text
  abbrev pub patch_payload : Fields → Result (Dict Json)
  patch_payload updates = fields_of loads loads_value "updates" updates

  abbrev pub process_payload : String → Option Json → Result (Dict Json)
  process_payload action metadata =
      add_value loads loads_value "metadata" (("action", Json.text action) ∷ []) metadata
