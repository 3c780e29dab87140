-- ===== src/NotesUi/Interleaved.antt =====
-- mcp/toolbridge_mcp/tools/notes_ui.py: `apply_note_edit` in pieces, from one `await` to the next. Other
-- calls run where it waits, on the same sessions and the same network.
use Prim.Native.String.{◌++◌ as ◌<>◌}
use toolbridge_api.Prelude.{
  ℕ, String, ◌≡◌, ◌⊎◌, inl, false, Option, none, some, List, [], ◌∷◌, ◌++◌, nat_eq, length, filter,
  is_empty, if◌then◌else◌,
}
use toolbridge_api.Prelude.Text.{str}
use toolbridge_api.Errors.{Result, ok, err}
use toolbridge_api.Dict.{lookup, erase}
use toolbridge_api.Diff.Matcher.{Matcher}
use toolbridge_api.Notes.Types.{Note}
use toolbridge_api.Sessions.Types.{NoteEditSession}
use toolbridge_api.Sessions.Store.{is_pending_hunk}
use toolbridge_api.Sessions.Consistent.{Operation}
use toolbridge_api.Sessions.Objects.{Heap, object, operate}
use toolbridge_api.Ui.Views.{View}
use toolbridge_api.Ui.Resources.{UiFormat, Block, respond}
use toolbridge_api.NotesUi.Api.{Update, Api}
use toolbridge_api.NotesUi.Texts.{
  card_metadata, error_response, not_found, edit_uri, session_error_uri, update_of, conflict_text,
  pending_text,
}
use toolbridge_api.NotesUi.Apply.{content_to_apply, handle}
pub mod Runs
pub mod Pieces
pub mod Safety
pub mod Alone

-- the arguments of a call, and the session that it got
pub record Applying : Type 0 where
  pub edit_id : String
  pub ui_format : UiFormat
  pub session : ℕ

-- how far a call is: where it waits, or its answer
pub data Progress : Type 0 where
  idle : Progress
  fetching : Applying → Progress
  fetched : Applying → Result Note → Progress
  sending : Applying → Update → Progress
  sent : Applying → Result Note → Progress
  answered : Result (List Block) → Progress

abbrev discarded : String → Heap → Heap
discarded edit_id heap = record heap { table = erase edit_id heap.table }

-- as far as the fetch
abbrev pub found_or : String → UiFormat → Option ℕ → Progress
found_or edit_id f none =
    Progress.answered (error_response (not_found edit_id) (session_error_uri edit_id) none f)
found_or edit_id f (some r) =
    Progress.fetching (record { edit_id = edit_id; ui_format = f; session = r })

unfoldable pub begin : String → UiFormat → Heap → Progress
begin edit_id f heap = found_or edit_id f (lookup edit_id heap.table)

abbrev pub prepared : Applying → NoteEditSession → Note → Result String → Progress
prepared a s current (err e) = Progress.answered (handle a.edit_id a.ui_format s e)
prepared a s current (ok content) = Progress.sending a (update_of s current content)

-- from the answer to the fetch to the update; `s` is the session as it is by now
unfoldable pub resume : Matcher → Applying → NoteEditSession → Result Note → Heap → Progress × Heap
resume get_opcodes a s (err e) heap = (Progress.answered (handle a.edit_id a.ui_format s e), heap)
resume get_opcodes a s (ok current) heap =
    let unresolved = filter is_pending_hunk s.hunks in
    if nat_eq current.version s.base_version
    then if is_empty unresolved
      then (prepared a s current (content_to_apply get_opcodes s s.current_content), heap)
      else (
        Progress.answered (
            error_response (pending_text (length unresolved))
              (edit_uri s.note_uid a.edit_id <> "/pending") (some s.note_uid) a.ui_format),
        heap,
      )
    else (
      Progress.answered (
          error_response (conflict_text s current) (edit_uri s.note_uid a.edit_id <> "/conflict")
            (some s.note_uid) a.ui_format),
      discarded a.edit_id heap,
    )

-- from the answer to the update on
unfoldable pub complete : Applying → NoteEditSession → Result Note → Heap → Progress × Heap
complete a s (err e) heap = (Progress.answered (handle a.edit_id a.ui_format s e), heap)
complete a s (ok updated) heap = (
  Progress.answered (
      respond ("ui://toolbridge/notes/" <> updated.uid) (View.edit_success updated)
        ("Applied note edit to '"
          <> (s.title <> ("'. New version: v" <> (str updated.version <> "."))))
        a.ui_format (card_metadata a.ui_format) none),
  discarded a.edit_id heap,
)

-- Calls by number, and the updates that were sent.
pub record System (S : Type 0) : Type 0 where
  pub heap : Heap
  pub net : S
  pub calls : ℕ → Progress
  pub log : List Update

abbrev pub set_call : ℕ → Progress → (ℕ → Progress) → ℕ → Progress
set_call i p calls j = if nat_eq i j then p else calls j

module _ (api : Api) where
  -- the fetch reaches the network
  abbrev pub after_fetch : ℕ → Applying → NoteEditSession → System api.State → System api.State
  after_fetch i a session s =
      let (r, net) = api.get_note session.note_uid false s.net in
      record s { net = net; calls = set_call i (Progress.fetched a r) s.calls }

  -- the update reaches the network
  abbrev pub after_update : ℕ → Applying → Update → System api.State → System api.State
  after_update i a u s =
      let (r, net) = api.update_note u s.net in
      record s {
        net = net;
        calls = set_call i (Progress.sent a r) s.calls;
        log = s.log ++ (u ∷ []);
      }

-- a piece of a call that changes no more than the sessions
abbrev pub after_piece : {S : Type 0} → ℕ → Progress × Heap → System S → System S
after_piece i (p, heap) s = record s { heap = heap; calls = set_call i p s.calls }

module _ (get_opcodes : Matcher) (api : Api) where
  pub data Step (s : System api.State) : System api.State → Type 0 where
    -- a new call of `apply_note_edit`
    call :
        (i : ℕ) (edit_id : String) (f : UiFormat)
        → s.calls i ≡ Progress.idle
        → Step s (after_piece i (begin edit_id f s.heap, s.heap) s)
    fetch :
        (i : ℕ) (a : Applying) (session : NoteEditSession)
        → s.calls i ≡ Progress.fetching a
        → object a.session s.heap.objects ≡ some session
        → Step s (after_fetch api i a session s)
    continue :
        (i : ℕ) (a : Applying) (r : Result Note) (session : NoteEditSession)
        → s.calls i ≡ Progress.fetched a r
        → object a.session s.heap.objects ≡ some session
        → Step s (after_piece i (resume get_opcodes a session r s.heap) s)
    update :
        (i : ℕ) (a : Applying) (u : Update)
        → s.calls i ≡ Progress.sending a u
        → Step s (after_update api i a u s)
    finish :
        (i : ℕ) (a : Applying) (r : Result Note) (session : NoteEditSession)
        → s.calls i ≡ Progress.sent a r
        → object a.session s.heap.objects ≡ some session
        → Step s (after_piece i (complete a session r s.heap) s)
    -- what another tool does to the sessions between two of its own waits
    operation :
        (o : Operation get_opcodes) → Step s (record s { heap = operate get_opcodes o s.heap })
    -- what anyone else does on the network
    outside : (net : api.State) → Step s (record s { net = net })

  abbrev pub initial : api.State → System api.State
  initial net = record {
    heap = record { objects = []; table = [] };
    net = net;
    calls = λ i. Progress.idle;
    log = [];
  }

  pub data Reach : System api.State → Type 0 where
    start : (net : api.State) → Reach (initial net)
    later : {s t : System api.State} → Reach s → Step s t → Reach t

  -- `P` holds at the end of a run, or held at an earlier moment of it.
  abbrev pub Once :
      ((s : System api.State) → Reach s → Type 0) → (s : System api.State) → Reach s → Type 0
  Once P _ (Reach.start net) = P (initial net) (Reach.start net)
  Once P t (Reach.later {s} run step) = P t (Reach.later run step) ⊎ Once P s run

  pub Once-now :
      (P : (s : System api.State) → Reach s → Type 0) (s : System api.State) (run : Reach s)
      → P s run
      → Once P s run
  Once-now P _ (Reach.start net) p = p
  Once-now P _ (Reach.later run step) p = inl p
