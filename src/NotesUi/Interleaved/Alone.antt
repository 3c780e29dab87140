-- ===== src/NotesUi/Interleaved/Alone.antt =====
-- mcp/toolbridge_mcp/tools/notes_ui.py: a call of `apply_note_edit` in pieces, with nothing between them.
use toolbridge_api.Prelude.{ℕ, String, ◌≡◌, ◌⊎◌, none, some, List}
use toolbridge_api.Errors.{Result}
use toolbridge_api.Dict.{Dict, lookup, erase}
use toolbridge_api.Diff.Matcher.{Matcher}
use toolbridge_api.Sessions.Types.{NoteEditSession, Sessions}
use toolbridge_api.Sessions.Objects.{Heap, object}
use toolbridge_api.Ui.Resources.{Block}
use toolbridge_api.NotesUi.Api.{Api}
use toolbridge_api.NotesUi.Apply.{finish}
use toolbridge_api.NotesUi.Interleaved.{Applying, Progress, System, Step}

module _ (get_opcodes : Matcher) (api : Api) where
  -- The step is one of the call `i` itself.
  abbrev pub IsOwn : ℕ → (s t : System api.State) → Step get_opcodes api s t → Type 0
  IsOwn i s _ (Step.call j edit_id f e) = j ≡ i
  IsOwn i s _ (Step.fetch j a session e found) = j ≡ i
  IsOwn i s _ (Step.continue j a r session e found) = j ≡ i
  IsOwn i s _ (Step.update j a u e) = j ≡ i
  IsOwn i s _ (Step.finish j a r session e found) = j ≡ i
  IsOwn i s t (Step.operation o) = ⊥
  IsOwn i s t (Step.outside net) = ⊥

  -- steps of the call `i`, and no others
  pub data Steps (i : ℕ) (s : System api.State) : System api.State → Type 0 where
    none_more : Steps i s s
    then :
        {t u : System api.State}
        → Steps i s t
        → (step : Step get_opcodes api t u) → IsOwn i t u step
        → Steps i s u

  -- The call has its answer, the network is `net`, and the session is kept in both views of the sessions
  -- or gone from both.
  pub record IsAnswered (i : ℕ) (edit_id : String) (table : Dict ℕ) (sessions : Sessions)
      (out : Result (List Block) × Sessions × api.State) (t : System api.State) : Type 0 where
    pub answer : t.calls i ≡ Progress.answered out.0
    pub net : t.net ≡ out.2
    pub kept :
        ((t.heap.table ≡ table) × (out.1 ≡ sessions))
        ⊎ ((t.heap.table ≡ erase edit_id table) × (out.1 ≡ erase edit_id sessions))

  module _ (i : ℕ) (a : Applying) (session : NoteEditSession) (sessions : Sessions) where
    -- the answers that a piece and the whole tool give
    abbrev Same :
        Heap → Progress × Heap → Result (List Block) × Sessions × api.State → api.State → Type 0
    Same heap (p, after) (answer, rest, st) net =
        (p ≡ Progress.answered answer)
        × (st ≡ net)
        × (((after.table ≡ heap.table) × (rest ≡ sessions))
            ⊎ ((after.table ≡ erase a.edit_id heap.table) × (rest ≡ erase a.edit_id sessions)))

    abbrev Answered : System api.State → Result (List Block) × Sessions × api.State → Type 0
    Answered s out =
        (t : System api.State) × Steps i s t × IsAnswered i a.edit_id s.heap.table sessions out t

  -- the shared sessions and their values agree on the session of the call
  abbrev pub Agree : String → Heap → Sessions → Type 0
  Agree edit_id heap sessions =
      ((lookup edit_id heap.table ≡ none) × (lookup edit_id sessions ≡ none))
      ⊎ ((r : ℕ) × (session : NoteEditSession) × (lookup edit_id heap.table ≡ some r)
          × (object r heap.objects ≡ some session)
          × (lookup edit_id sessions ≡ some session))
