-- ===== src/NotesUi/Writes.antt =====
-- What `apply_note_edit` writes: an `Api` that records the updates sent through it.
use toolbridge_api.Prelude.{
  String, ◌≡◌, refl, sym, subst, ◌∙◌, ◌⊎◌, Option, none, inl, inr, true, false, some, List, [], ◌∷◌,
  ◌++◌, arith, nat_eq, nat_eq_iff, any, filter, is_empty, Bool-cases, Option-cases,
}
use toolbridge_api.Errors.{Result, ok, err, Result-cases}
use toolbridge_api.Dict.{lookup}
use toolbridge_api.Diff.Matcher.{Matcher, IsMatcher}
use toolbridge_api.Notes.Types.{Note}
use toolbridge_api.Sessions.Types.{NoteEditHunkState, NoteEditSession, Sessions}
use toolbridge_api.Sessions.Store.{get_session, is_pending_hunk, merged_content}
use toolbridge_api.Sessions.Content.{IsMergedContent, merged_content-IsMergedContent}
use toolbridge_api.Sessions.Consistent.{
  FreshAt, IsFresh, AllSessions, lookup-AllSessions, Operation, run_all, sessions-IsFresh,
}
use toolbridge_api.Ui.Resources.{UiFormat}
use toolbridge_api.NotesUi.Api.{Update, Api}
use toolbridge_api.NotesUi.Texts.{update_of}
use toolbridge_api.NotesUi.Apply.{
  content_to_apply, finish, send, check, apply_found, apply_note_edit,
}

-- The same operations, with the list of the updates sent so far.
abbrev pub recorded : Api → Api
recorded api = record {
  State = api.State × List Update;
  get_note = λ uid include_deleted (st, log).
      let (r, st') = api.get_note uid include_deleted st in (r, (st', log));
  update_note = λ u (st, log). let (r, st') = api.update_note u st in (r, (st', log ++ u ∷ []));
}

pub is_empty-filter :
    (hs : List NoteEditHunkState)
    → is_empty (filter is_pending_hunk hs) ≡ true
    → any is_pending_hunk hs ≡ false
is_empty-filter [] e = refl
is_empty-filter (h ∷ hs) e = ground (arith, is_empty-filter hs)

module _ (api : Api) (edit_id : String) (f : UiFormat) where
  finish-log :
      (s : NoteEditSession) (r : Result Note) (sessions : Sessions) (st : api.State)
      (log : List Update)
      → (finish (recorded api) edit_id f s r sessions (st, log)).2.1 ≡ log
  unfolding finish
  finish-log s (ok n) sessions st log = refl
  finish-log s (err e) sessions st log = refl

  send-log :
      (s : NoteEditSession) (current : Note) (content : String) (sessions : Sessions)
      (st : api.State) (log : List Update)
      → (send (recorded api) edit_id f s current (ok content) sessions (st, log)).2.1
        ≡ log ++ update_of s current content ∷ []
  unfolding send
  send-log s current content sessions st log =
      let (r, st') = api.update_note (update_of s current content) st in
      finish-log s r sessions st' (log ++ update_of s current content ∷ [])

module _ (get_opcodes : Matcher) where
  -- the content of a session that shows what its decisions make
  pub content-merged :
      (s : NoteEditSession) (shown : Option String) (content : String)
      → FreshAt get_opcodes shown s
      → content_to_apply get_opcodes s shown ≡ ok content
      → merged_content get_opcodes s ≡ ok content
  content-merged s none content fresh c = c
  content-merged s (some x) content fresh c = fresh.1 ∙ c

module _ (get_opcodes : Matcher) (m : IsMatcher get_opcodes) (api : Api) where
  -- The one update that `apply_note_edit` may send: for a stored session of that identifier and a
  -- fetched note of the session's base version, no changed hunk pending, the merged content.
  pub record IsGuarded (edit_id : String) (f : UiFormat) (sessions : Sessions) (st : api.State)
      (u : Update) : Type 0 where
    pub session : NoteEditSession
    pub current : Note
    pub content : String
    pub stored : lookup edit_id sessions ≡ some session
    pub fetched : (api.get_note session.note_uid false st).0 ≡ ok current
    pub same_version : current.version ≡ session.base_version
    pub resolved : any is_pending_hunk session.hunks ≡ false
    pub merged : IsMergedContent get_opcodes session content
    pub sent : u ≡ update_of session current content

  -- the updates sent so far, after at most one more
  abbrev pub Written : String → UiFormat → Sessions → api.State → List Update → List Update → Type 0
  Written edit_id f sessions st log after =
      (after ≡ log) ⊎ ((u : Update) × (after ≡ log ++ u ∷ []) × IsGuarded edit_id f sessions st u)

  module _ (edit_id : String) (f : UiFormat) (sessions : Sessions) (st : api.State)
      (log : List Update) (s : NoteEditSession) (stored : lookup edit_id sessions ≡ some s)
      (fresh : IsFresh get_opcodes s) where
    -- after the fetch, with the note or without it
    check-writes :
        (r : Result Note) (st' : api.State)
        → (api.get_note s.note_uid false st).0 ≡ r
        → let after = (check get_opcodes (recorded api) edit_id f s r sessions (st', log)).2.1 in
          Written edit_id f sessions st log after
    unfolding check send
    check-writes (err e) st' fetched = inl refl
    check-writes (ok current) st' fetched =
        elim (Bool-cases (nat_eq current.version s.base_version)) [
          | inr v ↦ inl (rw v)
          | inl v ↦ elim (Bool-cases (is_empty (filter is_pending_hunk s.hunks))) [
            | inr p ↦ inl (rw (v, p))
            | inl p ↦ elim (Result-cases (content_to_apply get_opcodes s s.current_content)) [
              | inr (x, c) ↦ inl (rw (v, p, c))
              | inl (content, c) ↦ inr (
                update_of s current content,
                rw (v, p, c) (send-log api edit_id f s current content sessions st' log),
                record {
                  session = s;
                  current = current;
                  content = content;
                  stored = stored;
                  fetched = fetched;
                  same_version = (nat_eq_iff current.version s.base_version).0 v;
                  resolved = is_empty-filter s.hunks p;
                  merged =
                      merged_content-IsMergedContent get_opcodes s content m
                        (content-merged get_opcodes s s.current_content content fresh c);
                  sent = refl;
                },
              )
            ]
          ]
        ]

  found-writes :
      (edit_id : String) (f : UiFormat) (sessions : Sessions) (st : api.State) (log : List Update)
      → AllSessions (IsFresh get_opcodes) sessions
      → let after = (apply_note_edit get_opcodes (recorded api) edit_id f sessions (st, log)).2.1 in
        Written edit_id f sessions st log after
  unfolding apply_note_edit apply_found get_session
  found-writes edit_id f sessions st log fresh = elim (Option-cases (lookup edit_id sessions)) [
    | inl e ↦
        subst
          (λ o.
            Written edit_id f sessions st log
              (apply_found get_opcodes (recorded api) edit_id f sessions (st, log) o).2.1)
          (sym e) (inl refl)
    | inr (s, e) ↦
        let (r, st') = api.get_note s.note_uid false st in
        subst
          (λ o.
            Written edit_id f sessions st log
              (apply_found get_opcodes (recorded api) edit_id f sessions (st, log) o).2.1)
          (sym e)
          (check-writes edit_id f sessions st log s e
            (lookup-AllSessions (IsFresh get_opcodes) edit_id sessions s fresh e) r st' refl)
  ]

  -- For every matcher that keeps its documentation, and after any sequence of session
  -- operations that starts from no sessions: `apply_note_edit` sends at most one update, and only one for the
  -- stored session of the identifier, which has no pending changed hunk, whose note had the base version
  -- when it was fetched. The update carries the content that the decisions of the session make, hunk by
  -- hunk, under the base version.
  pub apply_note_edit-writes :
      (os : List (Operation get_opcodes)) (edit_id : String) (f : UiFormat) (st : api.State)
      (log : List Update)
      → let sessions = run_all get_opcodes os [] in
        let after = (apply_note_edit get_opcodes (recorded api) edit_id f sessions (st, log)).2.1 in
        Written edit_id f sessions st log after
  apply_note_edit-writes os edit_id f st log =
      found-writes edit_id f (run_all get_opcodes os []) st log (sessions-IsFresh get_opcodes os)
