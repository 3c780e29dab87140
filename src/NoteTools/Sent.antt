-- ===== src/NoteTools/Sent.antt =====
-- `apply_note_edit` over the real note tools: from the session to the request.
use toolbridge_api.Prelude.{ℕ, String, ◌≡◌, refl, ◌∙◌, false, Option, some, any}
use toolbridge_api.Errors.{Result, ok, err}
use toolbridge_api.Dict.{Dict, lookup, NodupKeys}
use toolbridge_api.Diff.Matcher.{Matcher}
use toolbridge_api.Notes.Types.{Json, Note}
use toolbridge_api.Sessions.Types.{NoteEditSession, Sessions}
use toolbridge_api.Sessions.Store.{is_pending_hunk}
use toolbridge_api.Ui.Resources.{UiFormat}
use toolbridge_api.Requests.Types.{
  AccessToken, Settings, Response, Http, Jose, World, proceed, lift,
}
use toolbridge_api.Requests.Calls.{call_put}
use toolbridge_api.NotesUi.Texts.{update_of}
use toolbridge_api.NotesUi.Apply.{apply_note_edit}
use toolbridge_api.NotesUi.Lifecycle.{apply_note_edit-ready}
use toolbridge_api.NoteTools.Tools.{update_payload, given, note_path, update_note, notes_api}
use toolbridge_api.NoteTools.Payload.{expected, update_of-payload}

-- reading the note from the response does not touch the world
proceed-note :
    {S : Type 0} (r : Result Response × World S)
    → (proceed r (λ response. lift response.note)).1 ≡ r.1
proceed-note (ok response, w) = refl
proceed-note (err e, w) = refl

module _ (loads : String → Result (Dict Json)) (loads_value : String → Result Json) (http : Http)
    (jose : Jose) (settings : Settings) (now : ℕ) (token : Result AccessToken) where
  update_note-sent :
      (u : String) (title : Json) (content : String) (if_match : Option ℕ)
      (fields : Option (Dict Json)) (p : Dict Json) (w : World http.State)
      → update_payload loads loads_value u title content (given fields) ≡ ok p
      → (update_note loads loads_value http jose settings now token u title content if_match
          (given fields)
          w).1
        ≡ (call_put http jose settings now token (note_path u) p if_match w).1
  unfolding update_note
  update_note-sent u title content if_match fields p w e =
      rw (e, update_note)
        (proceed-note (call_put http jose settings now token (note_path u) p if_match w))

  module _ (get_opcodes : Matcher) (edit_id : String) (f : UiFormat) (sessions : Sessions)
      (w w' : World http.State) (s : NoteEditSession) (current : Note) where
    -- For a stored session of the version that the note has, with no changed hunk pending and its
    -- content shown, and a payload with no key twice: after the fetch, what `apply_note_edit` does to
    -- the caches and the network is one `call_put` to the path of the note with the base version in
    -- `If-Match` and a body with the content, and with the title and every other field of the note
    -- as it was fetched.
    pub apply_note_edit-put :
        (content : String)
        → lookup edit_id sessions ≡ some s
        → (notes_api loads loads_value http jose settings now token).get_note s.note_uid false w
          ≡ (ok current, w')
        → current.version ≡ s.base_version
        → any is_pending_hunk s.hunks ≡ false
        → s.current_content ≡ some content
        → NodupKeys current.payload
        → (p : Dict Json) × ((k : String) → lookup k p ≡ expected s current content k)
          × ((apply_note_edit get_opcodes
                (notes_api loads loads_value http jose settings now token)
                edit_id
                f
                sessions
                w).2
              ≡ (call_put http jose settings now token
                  (note_path s.note_uid)
                  p
                  (some s.base_version)
                  w').1)
    apply_note_edit-put content stored fetched same resolved shown u =
        let api = notes_api loads loads_value http jose settings now token in
        let update = update_of s current content in
        let (p, e, fields) = update_of-payload loads loads_value s current content u in
        (
          p,
          fields,
          (apply_note_edit-ready get_opcodes api edit_id f sessions w w' s current stored fetched
                content same resolved shown).1
              ∙ update_note-sent update.uid update.title update.content update.if_match
                  update.additional_fields p w' e,
        )
