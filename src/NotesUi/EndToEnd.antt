-- ===== src/NotesUi/EndToEnd.antt =====
-- The whole edit flow: propose an edit, decide on its hunks, apply it.
use toolbridge_api.Prelude.{
  ℕ, String, ◌≡◌, ◌≢◌, sym, ap, ◌∙◌, false, Option, none, some, [], map, any, arith,
}
use toolbridge_api.Prelude.Strip.{strip}
use toolbridge_api.Errors.{ok}
use toolbridge_api.Dict.{lookup}
use toolbridge_api.Diff.Types.{Status}
use toolbridge_api.Diff.Matcher.{Matcher, IsMatcher}
use toolbridge_api.Notes.Types.{Note}
use toolbridge_api.Sessions.Types.{NoteEditSession, Sessions}
use toolbridge_api.Sessions.Store.{hunk_state, is_pending_hunk}
use toolbridge_api.Sessions.Merged.{IsPaired}
use toolbridge_api.Sessions.UpdateEach.{ids_of}
use toolbridge_api.Sessions.EachHunk.{decide_each, accept_each-content, reject_each-content}
use toolbridge_api.Ui.Resources.{UiFormat}
use toolbridge_api.NotesUi.Api.{Api}
use toolbridge_api.NotesUi.Texts.{update_of}
use toolbridge_api.NotesUi.Edit.{display_hunks}
use toolbridge_api.NotesUi.Apply.{apply_note_edit}
use toolbridge_api.NotesUi.Lifecycle.{apply_note_edit-ready}

module _ (get_opcodes : Matcher) (api : Api) (session_id : String) (now : ℕ)
    (user_id : Option String) (new_content : String) (summary : Option String) (f : UiFormat)
    (note : Note) (title original : String) where
  -- the session that an edit of the note creates
  abbrev pub new_session : NoteEditSession
  new_session = record {
    id = session_id;
    note_uid = note.uid;
    base_version = note.version;
    title = strip title;
    original_content = original;
    proposed_content = new_content;
    summary = summary;
    created_at = now;
    created_by = user_id;
    hunks = map hunk_state (display_hunks get_opcodes original new_content);
    current_content = none;
  }

update_of-eq :
    (s t : NoteEditSession) (current : Note) (content : String)
    → s.note_uid ≡ t.note_uid
    → s.base_version ≡ t.base_version
    → update_of s current content ≡ update_of t current content
update_of-eq s t current content e v = ground (arith, e, v)

module _ (get_opcodes : Matcher) (m : IsMatcher get_opcodes) (api : Api) (edit_id : String)
    (f : UiFormat) (s : NoteEditSession) (sessions : Sessions) (st st' : api.State) (current : Note)
    (stored : lookup edit_id sessions ≡ some s) (paired : IsPaired get_opcodes s)
    (hunks : s.hunks ≢ []) (fetched : api.get_note s.note_uid false st ≡ (ok current, st'))
    (same : current.version ≡ s.base_version) where
  -- `apply_note_edit` on sessions in which the session has been decided on.
  applied :
      (decided : Sessions) (s' : NoteEditSession) (content : String)
      → lookup edit_id decided ≡ some s'
      → s'.current_content ≡ some content
      → any is_pending_hunk s'.hunks ≡ false
      → s'.note_uid ≡ s.note_uid
      → s'.base_version ≡ s.base_version
      → (apply_note_edit get_opcodes api edit_id f decided st).2
        ≡ (api.update_note (update_of s current content) st').1
  applied decided s' content found shown settled uid version =
      let fetched' : api.get_note s'.note_uid false st ≡ (ok current, st') = rw uid fetched in
      (apply_note_edit-ready get_opcodes api edit_id f decided st st' s' current found fetched'
        content (same ∙ sym version) settled shown).1
      ∙ ap (λ u. (api.update_note u st').1) (update_of-eq s' s current content uid version)

  -- A stored session whose hunks are those of its diff, such as `edit_note_ui` creates: after every
  -- hunk is accepted, one by one, and while the note keeps the base version, `apply_note_edit` sends
  -- the proposed content under the base version.
  pub accept-apply :
      (apply_note_edit get_opcodes api edit_id f
        (decide_each get_opcodes edit_id Status.accepted (ids_of s.hunks) sessions)
        st).2
      ≡ (api.update_note (update_of s current s.proposed_content) st').1
  accept-apply =
      let (s', found, shown, settled, uid, version) =
        accept_each-content get_opcodes m edit_id sessions s stored paired hunks in
      applied _ s' s.proposed_content found shown settled uid version

  -- A stored session whose hunks are those of its diff, such as `edit_note_ui` creates: after every
  -- hunk is rejected, one by one, and while the note keeps the base version, `apply_note_edit` sends
  -- the original content back under the base version.
  pub reject-apply :
      (apply_note_edit get_opcodes api edit_id f
        (decide_each get_opcodes edit_id Status.rejected (ids_of s.hunks) sessions)
        st).2
      ≡ (api.update_note (update_of s current s.original_content) st').1
  reject-apply =
      let (s', found, shown, settled, uid, version) =
        reject_each-content get_opcodes m edit_id sessions s stored paired hunks in
      applied _ s' s.original_content found shown settled uid version
