-- ===== src/NotesUi/Interleaved/Pieces.antt =====
-- mcp/toolbridge_mcp/tools/notes_ui.py: what each piece of a call does while
-- other calls run.
use mathlib.Core.Option.{some-injective}
use toolbridge_api.Prelude.{
  ℕ, String, ◌≡◌, refl, sym, ◌∙◌, subst, inl, inr, false, Option, none, some, List, nat_eq,
  nat_eq_iff, any, filter, is_empty, Bool-cases,
}
use toolbridge_api.Errors.{Result, ok, err, Result-cases}
use toolbridge_api.Dict.{lookup}
use toolbridge_api.Diff.Matcher.{Matcher, IsMatcher}
use toolbridge_api.Notes.Types.{Note}
use toolbridge_api.Sessions.Types.{NoteEditSession}
use toolbridge_api.Sessions.Store.{is_pending_hunk}
use toolbridge_api.Sessions.Content.{merged_content-IsMergedContent}
use toolbridge_api.Sessions.Consistent.{IsFresh}
use toolbridge_api.Sessions.Objects.{Heap, object}
use toolbridge_api.Sessions.Objects.Kept.{KeptIn}
use toolbridge_api.Ui.Resources.{UiFormat}
use toolbridge_api.NotesUi.Api.{Api}
use toolbridge_api.NotesUi.Texts.{update_of}
use toolbridge_api.NotesUi.Apply.{content_to_apply}
use toolbridge_api.NotesUi.Writes.{is_empty-filter, content-merged}
use toolbridge_api.NotesUi.Interleaved.{
  Applying, Progress, found_or, begin, prepared, resume, complete, System, set_call, Step, Reach,
  Once-now,
}
use toolbridge_api.NotesUi.Interleaved.Runs.{
  Run, IsCalled, IsFetched, WasCalled, WasFetched, IsReady, WasReady,
}

module _ (get_opcodes : Matcher) (api : Api) where
  -- the session that a call holds is among the objects, and its note was fetched for the call
  abbrev pub Fetched :
      (s : System api.State)
      → Run get_opcodes api s
      → List NoteEditSession
      → Applying
      → Result Note
      → Type 0
  Fetched s run objects a (err e) = Unit
  Fetched s run objects a (ok current) =
      (session : NoteEditSession) × (object a.session objects ≡ some session)
      × WasFetched get_opcodes api a session.note_uid current s run

  -- what a run has behind it where a call has come so far
  abbrev pub CallOk :
      (s : System api.State) → Run get_opcodes api s → List NoteEditSession → Progress → Type 0
  CallOk s run objects (Progress.fetching a) = WasCalled get_opcodes api a s run
  CallOk s run objects (Progress.fetched a r) = Fetched s run objects a r
  CallOk s run objects (Progress.sending a u) = WasReady get_opcodes api u s run
  CallOk s run objects _ = Unit

  -- a call stays in order in a longer run where the objects keep their notes
  pub kept-CallOk :
      (s t : System api.State) (run : Run get_opcodes api s) (step : Step get_opcodes api s t)
      (objects objects' : List NoteEditSession) (p : Progress)
      → ((r : ℕ) (x : NoteEditSession) → object r objects ≡ some x → KeptIn objects' r x)
      → CallOk s run objects p
      → CallOk t (Reach.later run step) objects' p
  kept-CallOk s t run step objects objects' Progress.idle kept c = tt
  kept-CallOk s t run step objects objects' (Progress.fetching a) kept c = inr c
  kept-CallOk s t run step objects objects' (Progress.fetched a (err e)) kept c = tt
  kept-CallOk s t run step objects objects' (Progress.fetched a (ok current)) kept (x, found, c) =
      let (y, found_y, same) = kept a.session x found in
      (y, found_y, inr (subst (λ uid. WasFetched get_opcodes api a uid current s run) (sym same) c))
  kept-CallOk s t run step objects objects' (Progress.sending a u) kept c = inr c
  kept-CallOk s t run step objects objects' (Progress.sent a r) kept c = tt
  kept-CallOk s t run step objects objects' (Progress.answered r) kept c = tt

  -- a piece keeps the objects and goes on with a call that is in order
  abbrev pub PieceOk : (s : System api.State) → Run get_opcodes api s → Progress × Heap → Type 0
  PieceOk s run (p, heap) = CallOk s run s.heap.objects p × (heap.objects ≡ s.heap.objects)

  found-CallOk :
      (s : System api.State) (run : Run get_opcodes api s) (edit_id : String) (f : UiFormat)
      (found : Option ℕ)
      → lookup edit_id s.heap.table ≡ found
      → CallOk s run s.heap.objects (found_or edit_id f found)
  found-CallOk s run edit_id f none e = tt
  found-CallOk s run edit_id f (some r) e =
      Once-now get_opcodes api
        (IsCalled get_opcodes api (record { edit_id = edit_id; ui_format = f; session = r })) s run
        e

  pub begin-PieceOk :
      (s : System api.State) (run : Run get_opcodes api s) (edit_id : String) (f : UiFormat)
      → PieceOk s run (begin edit_id f s.heap, s.heap)
  unfolding begin
  begin-PieceOk s run edit_id f =
      (found-CallOk s run edit_id f (lookup edit_id s.heap.table) refl, refl)

  pub fetch-CallOk :
      (s : System api.State) (run : Run get_opcodes api s) (a : Applying)
      (session : NoteEditSession) (r : Result Note)
      → object a.session s.heap.objects ≡ some session
      → (api.get_note session.note_uid false s.net).0 ≡ r
      → WasCalled get_opcodes api a s run
      → CallOk s run s.heap.objects (Progress.fetched a r)
  fetch-CallOk s run a session (err e) found fetched called = tt
  fetch-CallOk s run a session (ok current) found fetched called = (
    session,
    found,
    Once-now get_opcodes api (IsFetched get_opcodes api a session.note_uid current) s run
        (session, found, refl, fetched, called),
  )

  module _ (m : IsMatcher get_opcodes) (s : System api.State) (run : Run get_opcodes api s) (i : ℕ)
      (a : Applying) (session : NoteEditSession)
      (held : object a.session s.heap.objects ≡ some session)
      (fresh : IsFresh get_opcodes session) where
    prepared-CallOk :
        (current : Note)
        → s.calls i ≡ Progress.fetched a (ok current)
        → WasFetched get_opcodes api a session.note_uid current s run
        → current.version ≡ session.base_version
        → any is_pending_hunk session.hunks ≡ false
        → CallOk s run s.heap.objects (
            prepared a session current
              (content_to_apply get_opcodes session session.current_content))
    prepared-CallOk current waiting fetched same resolved =
        elim (Result-cases (content_to_apply get_opcodes session session.current_content)) [
          | inr (x, c) ↦ rw c tt
          | inl (content, c) ↦ rw c (
              Once-now get_opcodes api (IsReady get_opcodes api (update_of session current content))
                s run
                (record {
                  i = i;
                  a = a;
                  session = session;
                  current = current;
                  content = content;
                  waiting = waiting;
                  held = held;
                  fetched = fetched;
                  same_version = same;
                  resolved = resolved;
                  merged =
                      merged_content-IsMergedContent get_opcodes session content m (
                        content-merged get_opcodes session session.current_content content fresh c);
                  sent = refl;
                }))
        ]

    pub resume-PieceOk :
        (r : Result Note)
        → s.calls i ≡ Progress.fetched a r
        → Fetched s run s.heap.objects a r
        → PieceOk s run (resume get_opcodes a session r s.heap)
    unfolding resume
    resume-PieceOk (err e) waiting fetched = (tt, refl)
    resume-PieceOk (ok current) waiting (x, found, fetched) =
        let same : x ≡ session = some-injective x session (sym found ∙ held) in
        let fetched' : WasFetched get_opcodes api a session.note_uid current s run =
          subst (λ (y : NoteEditSession). WasFetched get_opcodes api a y.note_uid current s run)
            same fetched in
        elim (Bool-cases (nat_eq current.version session.base_version)) [
          | inr v ↦ rw v (tt, refl)
          | inl v ↦ elim (Bool-cases (is_empty (filter is_pending_hunk session.hunks))) [
            | inr p ↦ rw (v, p) (tt, refl)
            | inl p ↦
                rw (v, p)
                  (
                    prepared-CallOk current waiting fetched'
                        ((nat_eq_iff current.version session.base_version).0 v)
                        (is_empty-filter session.hunks p),
                    refl,
                  )
          ]
        ]

  pub complete-PieceOk :
      (s : System api.State) (run : Run get_opcodes api s) (a : Applying)
      (session : NoteEditSession) (r : Result Note)
      → PieceOk s run (complete a session r s.heap)
  unfolding complete
  complete-PieceOk s run a session (err e) = (tt, refl)
  complete-PieceOk s run a session (ok updated) = (tt, refl)

-- what holds of the new progress of a call and of every other call holds of all of them
pub set_call-all :
    (P : Progress → Type 0) (i : ℕ) (p : Progress) (calls : ℕ → Progress)
    → P p
    → ((j : ℕ) → P (calls j))
    → (j : ℕ) → P (set_call i p calls j)
set_call-all P i p calls c cs j = elim (Bool-cases (nat_eq i j)) [
  | inl e ↦ rw e c
  | inr e ↦ rw e (cs j)
]
