-- ===== src/NotesUi/Interleaved/Runs.antt =====
-- mcp/toolbridge_mcp/tools/notes_ui.py: what happened in a run before an update was sent.
use toolbridge_api.Prelude.{ℕ, String, ◌≡◌, false, some, any}
use toolbridge_api.Errors.{ok}
use toolbridge_api.Dict.{lookup}
use toolbridge_api.Diff.Matcher.{Matcher}
use toolbridge_api.Notes.Types.{Note}
use toolbridge_api.Sessions.Types.{NoteEditSession}
use toolbridge_api.Sessions.Store.{is_pending_hunk}
use toolbridge_api.Sessions.Content.{IsMergedContent}
use toolbridge_api.Sessions.Objects.{object}
use toolbridge_api.NotesUi.Api.{Update, Api}
use toolbridge_api.NotesUi.Texts.{update_of}
use toolbridge_api.NotesUi.Interleaved.{Applying, Progress, System, Reach, Once}

module _ (get_opcodes : Matcher) (api : Api) where
  abbrev pub Run : System api.State → Type 0
  Run = Reach get_opcodes api

  -- The identifier of a call names the session that the call holds.
  abbrev pub IsCalled : Applying → (s : System api.State) → Run s → Type 0
  IsCalled a s run = lookup a.edit_id s.heap.table ≡ some a.session

  abbrev pub WasCalled : Applying → (s : System api.State) → Run s → Type 0
  WasCalled a = Once get_opcodes api (IsCalled a)

  -- After the call, a fetch gives the note of its session.
  abbrev pub IsFetched : Applying → String → Note → (s : System api.State) → Run s → Type 0
  IsFetched a uid current s run =
      (session : NoteEditSession) × (object a.session s.heap.objects ≡ some session)
      × (session.note_uid ≡ uid)
      × ((api.get_note uid false s.net).0 ≡ ok current)
      × WasCalled a s run

  abbrev pub WasFetched : Applying → String → Note → (s : System api.State) → Run s → Type 0
  WasFetched a uid current = Once get_opcodes api (IsFetched a uid current)

  -- At this moment a call has its note, the session that it holds has no changed hunk pending and the
  -- version of the note, and the update carries the content that the decisions of this session make.
  pub record IsReady (u : Update) (s : System api.State) (run : Run s) : Type 0 where
    pub i : ℕ
    pub a : Applying
    pub session : NoteEditSession
    pub current : Note
    pub content : String
    pub waiting : s.calls i ≡ Progress.fetched a (ok current)
    pub held : object a.session s.heap.objects ≡ some session
    pub fetched : WasFetched a session.note_uid current s run
    pub same_version : current.version ≡ session.base_version
    pub resolved : any is_pending_hunk session.hunks ≡ false
    pub merged : IsMergedContent get_opcodes session content
    pub sent : u ≡ update_of session current content

  abbrev pub WasReady : Update → (s : System api.State) → Run s → Type 0
  WasReady u = Once get_opcodes api (IsReady u)
