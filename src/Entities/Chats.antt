-- ===== src/Entities/Chats.antt =====
-- mcp/toolbridge_mcp/tools/chats.py: the records and the tools.
use Prim.Native.String.{◌++◌ as ◌<>◌}
use toolbridge_api.Prelude.{ℕ, String, Bool, Option, [], ◌∷◌, if◌then◌else◌}
use toolbridge_api.Errors.{Result, ◌>>=◌}
use toolbridge_api.Dict.{Dict}
use toolbridge_api.Notes.Types.{Json, Note, NotesListResponse}
use toolbridge_api.Requests.Types.{AccessToken, Settings, Http, Jose, Action}
use toolbridge_api.Requests.Calls.{call_post}
use toolbridge_api.NoteTools.Tools.{Fields, add_fields, add_value}
use toolbridge_api.Entities.Shapes.{
  add_text, entity, list_at, get_at, create_at, update_at, patch_at, delete_at, patch_payload,
  process_payload,
}

-- The record has the fields of a note.
abbrev pub Chat : Type 0
Chat = Note

abbrev pub ChatsListResponse : Type 0
ChatsListResponse = NotesListResponse

abbrev pub chat_path : String → String
chat_path uid = "/v1/chats/" <> uid

-- the JSON of a `bool`
abbrev json_bool : Bool → Json
json_bool b = Json.other b (if b then "true" else "false")

module _ (loads : String → Result (Dict Json)) (loads_value : String → Result Json) where
  abbrev pub create_chat_payload :
      String → Option String → Option Json → Bool → Option Json → Option Fields → Result (Dict Json)
  create_chat_payload title description participants archived tags additional_fields =
      (add_value loads loads_value "participants"
          (add_text "description" description
            (("title", Json.text title) ∷ ("archived", json_bool archived) ∷ []))
          participants
        >>= λ payload. add_value loads loads_value "tags" payload tags >>= λ payload.
            add_fields loads loads_value payload additional_fields)

  abbrev pub update_chat_payload :
      String → String → Option String → Option Fields → Result (Dict Json)
  update_chat_payload uid title description additional_fields =
      add_fields loads loads_value
        (add_text "description" description
          (("uid", Json.text uid) ∷ ("title", Json.text title) ∷ []))
        additional_fields

  module _ (http : Http) (jose : Jose) (settings : Settings) (now : ℕ)
      (token : Result AccessToken) where
    abbrev pub list_chats : ℕ → Option String → Bool → Action http.State ChatsListResponse
    list_chats = list_at http jose settings now token "/v1/chats"

    abbrev pub get_chat : String → Bool → Action http.State Chat
    get_chat uid = get_at http jose settings now token (chat_path uid)

    abbrev pub create_chat :
        String
        → Option String
        → Option Json
        → Bool
        → Option Json
        → Option Fields
        → Action http.State Chat
    create_chat title description participants archived tags additional_fields =
        create_at http jose settings now token "/v1/chats"
          (create_chat_payload title description participants archived tags additional_fields)

    abbrev pub update_chat :
        String → String → Option String → Option ℕ → Option Fields → Action http.State Chat
    update_chat uid title description if_match additional_fields =
        update_at http jose settings now token (chat_path uid)
          (update_chat_payload uid title description additional_fields) if_match

    abbrev pub patch_chat : String → Fields → Action http.State Chat
    patch_chat uid updates =
        patch_at http jose settings now token (chat_path uid)
          (patch_payload loads loads_value updates)

    abbrev pub delete_chat : String → Action http.State Chat
    delete_chat uid = delete_at http jose settings now token (chat_path uid)

    abbrev pub archive_chat : String → Action http.State Chat
    archive_chat uid =
        entity (call_post http jose settings now token (chat_path uid <> "/archive") [])

    abbrev pub process_chat : String → String → Option Json → Action http.State Chat
    process_chat uid action metadata =
        create_at http jose settings now token (chat_path uid <> "/process")
          (process_payload loads loads_value action metadata)
