-- ===== src/Entities/ChatMessages.antt =====
-- mcp/toolbridge_mcp/tools/chat_messages.py: the records and the tools.
use Prim.Native.String.{◌++◌ as ◌<>◌}
use toolbridge_api.Prelude.{ℕ, String, Bool, Option, [], ◌∷◌}
use toolbridge_api.Errors.{Result, ◌>>=◌}
use toolbridge_api.Dict.{Dict}
use toolbridge_api.Notes.Types.{Json, Note, NotesListResponse}
use toolbridge_api.Requests.Types.{AccessToken, Settings, Http, Jose, Action}
use toolbridge_api.Requests.Calls.{call_post}
use toolbridge_api.NoteTools.Tools.{Fields, add_fields, add_value}
use toolbridge_api.Entities.Shapes.{
  add_text, entity, list_at, get_at, create_at, update_at, patch_at, delete_at, patch_payload,
  process_payload,
}

-- The record has the fields of a note.
abbrev pub ChatMessage : Type 0
ChatMessage = Note

abbrev pub ChatMessagesListResponse : Type 0
ChatMessagesListResponse = NotesListResponse

abbrev pub chat_message_path : String → String
chat_message_path uid = "/v1/chat_messages/" <> uid

module _ (loads : String → Result (Dict Json)) (loads_value : String → Result Json) where
  abbrev pub create_chat_message_payload :
      String
      → String
      → Option String
      → Option String
      → Option Json
      → Option Fields
      → Result (Dict Json)
  create_chat_message_payload chat_uid content sender message_type tags additional_fields =
      (add_value loads loads_value "tags"
          (add_text "messageType" message_type (
            add_text "sender" sender
              (("chatUid", Json.text chat_uid) ∷ ("content", Json.text content) ∷ [])))
          tags
        >>= λ payload. add_fields loads loads_value payload additional_fields)

  abbrev pub update_chat_message_payload : String → String → Option Fields → Result (Dict Json)
  update_chat_message_payload uid content additional_fields =
      add_fields loads loads_value (("uid", Json.text uid) ∷ ("content", Json.text content) ∷ [])
        additional_fields

  module _ (http : Http) (jose : Jose) (settings : Settings) (now : ℕ)
      (token : Result AccessToken) where
    abbrev pub list_chat_messages :
        ℕ → Option String → Bool → Action http.State ChatMessagesListResponse
    list_chat_messages = list_at http jose settings now token "/v1/chat_messages"

    abbrev pub get_chat_message : String → Bool → Action http.State ChatMessage
    get_chat_message uid = get_at http jose settings now token (chat_message_path uid)

    abbrev pub create_chat_message :
        String
        → String
        → Option String
        → Option String
        → Option Json
        → Option Fields
        → Action http.State ChatMessage
    create_chat_message chat_uid content sender message_type tags additional_fields =
        create_at http jose settings now token "/v1/chat_messages"
          (create_chat_message_payload chat_uid content sender message_type tags additional_fields)

    abbrev pub update_chat_message :
        String → String → Option ℕ → Option Fields → Action http.State ChatMessage
    update_chat_message uid content if_match additional_fields =
        update_at http jose settings now token (chat_message_path uid)
          (update_chat_message_payload uid content additional_fields) if_match

    abbrev pub patch_chat_message : String → Fields → Action http.State ChatMessage
    patch_chat_message uid updates =
        patch_at http jose settings now token (chat_message_path uid)
          (patch_payload loads loads_value updates)

    abbrev pub delete_chat_message : String → Action http.State ChatMessage
    delete_chat_message uid = delete_at http jose settings now token (chat_message_path uid)

    abbrev pub archive_chat_message : String → Action http.State ChatMessage
    archive_chat_message uid =
        entity (call_post http jose settings now token (chat_message_path uid <> "/archive") [])

    abbrev pub process_chat_message : String → String → Option Json → Action http.State ChatMessage
    process_chat_message uid action metadata =
        create_at http jose settings now token (chat_message_path uid <> "/process")
          (process_payload loads loads_value action metadata)
