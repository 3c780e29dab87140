-- ===== src/NotesUi/Lifecycle.antt =====
-- What `apply_note_edit` answers, and what it leaves of the session.
use toolbridge_api.Prelude.{
  String, ◌≡◌, refl, ap, ◌∙◌, inl, inr, true, false, Option, none, some, List, [], ◌∷◌, arith,
  nat_eq, nat_eq_iff, any, filter, is_empty, Bool-cases,
}
use toolbridge_api.Errors.{Exc, Result, ok, err}
use toolbridge_api.Dict.{lookup, erase}
use toolbridge_api.Diff.Types.{Status}
use toolbridge_api.Diff.Matcher.{Matcher}
use toolbridge_api.Notes.Types.{Note}
use toolbridge_api.Sessions.Types.{NoteEditHunkState, NoteEditSession, Sessions}
use toolbridge_api.Sessions.Store.{get_session, discard_session, is_pending_hunk, set_hunk_status}
use toolbridge_api.Ui.Resources.{UiFormat, Block, respond_lem}
use toolbridge_api.NotesUi.Api.{Api}
use toolbridge_api.NotesUi.Texts.{update_of}
use toolbridge_api.NotesUi.Edit.{decide_hunk}
use toolbridge_api.NotesUi.Apply.{
  content_to_apply, handle, finish, send, check, apply_found, apply_note_edit,
}

-- the result is an answer, and no exception
abbrev pub Answers : Result (List Block) → Type 0
Answers r = (blocks : List Block) × (r ≡ ok blocks)

module _ (edit_id : String) (f : UiFormat) where
  handle-Answers : (s : NoteEditSession) (e : Exc) → Answers (handle edit_id f s e)
  handle-Answers s (Exc.http_status_error code text message) = (_, respond_lem _ _ _ f _ _)
  handle-Answers s _ = (_, respond_lem _ _ _ f _ _)

module _ (api : Api) (edit_id : String) (f : UiFormat) where
  finish-Answers :
      (s : NoteEditSession) (r : Result Note) (sessions : Sessions) (st : api.State)
      → Answers (finish api edit_id f s r sessions st).0
  unfolding finish
  finish-Answers s (ok n) sessions st = (_, respond_lem _ _ _ f _ _)
  finish-Answers s (err e) sessions st = handle-Answers edit_id f s e

  send-Answers :
      (s : NoteEditSession) (current : Note) (content : Result String) (sessions : Sessions)
      (st : api.State)
      → Answers (send api edit_id f s current content sessions st).0
  unfolding send
  send-Answers s current (ok content) sessions st =
      let (r, st') = api.update_note (update_of s current content) st in
      finish-Answers s r sessions st'
  send-Answers s current (err e) sessions st = handle-Answers edit_id f s e

module _ (get_opcodes : Matcher) (api : Api) (edit_id : String) (f : UiFormat) where
  check-Answers :
      (s : NoteEditSession) (r : Result Note) (sessions : Sessions) (st : api.State)
      → Answers (check get_opcodes api edit_id f s r sessions st).0
  unfolding check
  check-Answers s (err e) sessions st = handle-Answers edit_id f s e
  check-Answers s (ok current) sessions st =
      elim (Bool-cases (nat_eq current.version s.base_version)) [
        | inr v ↦ rw v (_, respond_lem _ _ _ f _ _)
        | inl v ↦ elim (Bool-cases (is_empty (filter is_pending_hunk s.hunks))) [
          | inr p ↦ rw (v, p) (_, respond_lem _ _ _ f _ _)
          | inl p ↦
              rw (v, p)
                (send-Answers api edit_id f s current
                  (content_to_apply get_opcodes s s.current_content) sessions st)
        ]
      ]

  -- `apply_note_edit` always answers: whatever the API raises, no exception leaves it.
  pub apply_note_edit-answers :
      (sessions : Sessions) (st : api.State)
      → (blocks : List Block) × ((apply_note_edit get_opcodes api edit_id f sessions st).0
          ≡ ok blocks)
  unfolding apply_note_edit
  apply_note_edit-answers sessions st = go (get_session edit_id sessions)
    where
      go :
          (o : Option NoteEditSession)
          → Answers (apply_found get_opcodes api edit_id f sessions st o).0
      go none = unfold apply_found in (_, respond_lem _ _ _ f _ _)
      go (some s) =
          unfold apply_found in
          let (r, st') = api.get_note s.note_uid false st in check-Answers s r sessions st'

-- `d` with the session removed if the update succeeded
abbrev pub after_update : String → Result Note → Sessions → Sessions
after_update edit_id (ok n) d = erase edit_id d
after_update edit_id (err e) d = d

finish-state :
    (api : Api) (edit_id : String) (f : UiFormat) (s : NoteEditSession) (r : Result Note)
    (sessions : Sessions) (st : api.State)
    → let out = finish api edit_id f s r sessions st in
      (out.1 ≡ after_update edit_id r sessions) × (out.2 ≡ st)
unfolding finish discard_session
finish-state api edit_id f s (ok n) sessions st = (refl, refl)
finish-state api edit_id f s (err e) sessions st = (refl, refl)

empty-filter :
    (hs : List NoteEditHunkState)
    → any is_pending_hunk hs ≡ false
    → is_empty (filter is_pending_hunk hs) ≡ true
empty-filter [] e = refl
empty-filter (h ∷ hs) e = ground (arith, empty-filter hs)

module _ (get_opcodes : Matcher) (api : Api) (edit_id : String) (f : UiFormat) (sessions : Sessions)
    (st st' : api.State) (s : NoteEditSession) (current : Note)
    (stored : lookup edit_id sessions ≡ some s)
    (fetched : api.get_note s.note_uid false st ≡ (ok current, st')) where
  apply-check :
      apply_note_edit get_opcodes api edit_id f sessions st
      ≡ check get_opcodes api edit_id f s (ok current) sessions st'
  unfolding apply_note_edit apply_found get_session
  apply-check =
      ap (apply_found get_opcodes api edit_id f sessions st) stored
      ∙ ap (λ (p : Result Note × api.State). check get_opcodes api edit_id f s p.0 sessions p.1)
          fetched

  -- When the stored session's note has the base version, no changed hunk is pending and the content
  -- is shown, `apply_note_edit` sends the update with that content under the base version, and
  -- removes the session exactly if the update succeeds.
  pub apply_note_edit-ready :
      (content : String)
      → current.version ≡ s.base_version
      → any is_pending_hunk s.hunks ≡ false
      → s.current_content ≡ some content
      → let out = apply_note_edit get_opcodes api edit_id f sessions st in
        let sent = api.update_note (update_of s current content) st' in
        (out.1 ≡ after_update edit_id sent.0 sessions) × (out.2 ≡ sent.1)
  unfolding check send
  apply_note_edit-ready content same resolved shown =
      let sent = api.update_note (update_of s current content) st' in
      let e : check get_opcodes api edit_id f s (ok current) sessions st'
          ≡ finish api edit_id f s sent.0 sessions sent.1 =
        rw
          ((nat_eq_iff current.version s.base_version).1 same, empty-filter s.hunks resolved, shown)
          refl in
      let out = finish-state api edit_id f s sent.0 sessions sent.1 in
      let all = apply-check ∙ e in (ap (λ o. o.1) all ∙ out.0, ap (λ o. o.2) all ∙ out.1)

-- A decision on a hunk is stored by `set_hunk_status` before the note is fetched for the answer: it
-- stays stored also when the fetch raises and the tool with it.
pub decide_hunk-stores :
    (get_opcodes : Matcher) (api : Api) (verb : String) (status : Status) (text : Option String)
    (edit_id hunk_id : String) (f : UiFormat) (sessions : Sessions) (st : api.State)
    → (decide_hunk get_opcodes api verb status text edit_id hunk_id f sessions st).1
      ≡ (set_hunk_status get_opcodes edit_id hunk_id status text sessions).1
unfolding decide_hunk
decide_hunk-stores get_opcodes api verb status text edit_id hunk_id f sessions st = ground arith
