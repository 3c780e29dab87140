-- ===== src/Entities/Comments.antt =====
-- mcp/toolbridge_mcp/tools/comments.py: the records and the tools.
use Prim.Native.String.{◌++◌ as ◌<>◌}
use toolbridge_api.Prelude.{ℕ, String, Bool, Option, [], ◌∷◌}
use toolbridge_api.Errors.{Result, ◌>>=◌}
use toolbridge_api.Dict.{Dict}
use toolbridge_api.Notes.Types.{Json, Note, NotesListResponse}
use toolbridge_api.Requests.Types.{AccessToken, Settings, Http, Jose, Action}
use toolbridge_api.Requests.Calls.{call_post}
use toolbridge_api.NoteTools.Tools.{Fields, add_fields, add_value}
use toolbridge_api.Entities.Shapes.{
  add_text, entity, list_at, get_at, create_at, update_at, patch_at, delete_at, patch_payload,
  process_payload,
}

-- The record has the fields of a note.
abbrev pub Comment : Type 0
Comment = Note

abbrev pub CommentsListResponse : Type 0
CommentsListResponse = NotesListResponse

abbrev pub comment_path : String → String
comment_path uid = "/v1/comments/" <> uid

module _ (loads : String → Result (Dict Json)) (loads_value : String → Result Json) where
  abbrev pub create_comment_payload :
      String → String → String → Option String → Option Json → Option Fields → Result (Dict Json)
  create_comment_payload content parent_type parent_uid author tags additional_fields =
      (add_value loads loads_value "tags"
          (add_text "author" author (
            ("content", Json.text content)
            ∷ ("parentType", Json.text parent_type)
            ∷ ("parentUid", Json.text parent_uid)
            ∷ []))
          tags
        >>= λ payload. add_fields loads loads_value payload additional_fields)

  abbrev pub update_comment_payload : String → String → Option Fields → Result (Dict Json)
  update_comment_payload uid content additional_fields =
      add_fields loads loads_value (("uid", Json.text uid) ∷ ("content", Json.text content) ∷ [])
        additional_fields

  module _ (http : Http) (jose : Jose) (settings : Settings) (now : ℕ)
      (token : Result AccessToken) where
    abbrev pub list_comments : ℕ → Option String → Bool → Action http.State CommentsListResponse
    list_comments = list_at http jose settings now token "/v1/comments"

    abbrev pub get_comment : String → Bool → Action http.State Comment
    get_comment uid = get_at http jose settings now token (comment_path uid)

    abbrev pub create_comment :
        String
        → String
        → String
        → Option String
        → Option Json
        → Option Fields
        → Action http.State Comment
    create_comment content parent_type parent_uid author tags additional_fields =
        create_at http jose settings now token "/v1/comments"
          (create_comment_payload content parent_type parent_uid author tags additional_fields)

    abbrev pub update_comment :
        String → String → Option ℕ → Option Fields → Action http.State Comment
    update_comment uid content if_match additional_fields =
        update_at http jose settings now token (comment_path uid)
          (update_comment_payload uid content additional_fields) if_match

    abbrev pub patch_comment : String → Fields → Action http.State Comment
    patch_comment uid updates =
        patch_at http jose settings now token (comment_path uid)
          (patch_payload loads loads_value updates)

    abbrev pub delete_comment : String → Action http.State Comment
    delete_comment uid = delete_at http jose settings now token (comment_path uid)

    abbrev pub archive_comment : String → Action http.State Comment
    archive_comment uid =
        entity (call_post http jose settings now token (comment_path uid <> "/archive") [])

    abbrev pub process_comment : String → String → Option Json → Action http.State Comment
    process_comment uid action metadata =
        create_at http jose settings now token (comment_path uid <> "/process")
          (process_payload loads loads_value action metadata)
