-- ===== src/Sessions/Objects.antt =====
-- mcp/toolbridge_mcp/note_edit_sessions.py: the sessions as objects that calls share. `_SESSIONS` holds
-- references, and a call that has got a session keeps its reference also when the dictionary loses it.
pub mod Kept
use toolbridge_api.Prelude.{
  ℕ, zero, suc, ◌+◌, String, ◌≡◌, refl, ◌∙◌, Option, none, some, List, [], ◌∷◌, ◌++◌, inl, inr,
  length, Option-cases,
}
use toolbridge_api.Errors.{Result, ok, err, Result-cases}
use toolbridge_api.Dict.{Dict, lookup, insert, erase}
use toolbridge_api.Diff.Types.{Status}
use toolbridge_api.Diff.Matcher.{Matcher}
use toolbridge_api.Sessions.Types.{NoteEditSession, Sessions}
use toolbridge_api.Sessions.Store.{
  create_session, expired_ids, update_hunk, recompute_current_content,
}
use toolbridge_api.Sessions.Consistent.{Operation}

-- The objects made so far, a reference being a position, and `_SESSIONS`.
pub record Heap : Type 0 where
  pub objects : List NoteEditSession
  pub table : Dict ℕ

abbrev pub object : ℕ → List NoteEditSession → Option NoteEditSession
object r [] = none
object zero (s ∷ objects) = some s
object (suc r) (s ∷ objects) = object r objects

abbrev pub change_object :
    ℕ → (NoteEditSession → NoteEditSession) → List NoteEditSession → List NoteEditSession
change_object r g [] = []
change_object zero g (s ∷ objects) = g s ∷ objects
change_object (suc r) g (s ∷ objects) = s ∷ change_object r g objects

-- the sessions behind the references, as values
abbrev pub entry : String → Option NoteEditSession → Sessions → Sessions
entry k none rest = rest
entry k (some s) rest = (k, s) ∷ rest

abbrev pub values : List NoteEditSession → Dict ℕ → Sessions
values objects [] = []
values objects ((k, r) ∷ table) = entry k (object r objects) (values objects table)

-- the new object in its place, or nothing where `create_session` raises
abbrev pub store_new : String → Heap → Result (NoteEditSession × Sessions) → Heap
store_new id heap (err e) = heap
store_new id heap (ok (s, sessions)) = record {
  objects = heap.objects ++ (s ∷ []);
  table = insert id (length heap.objects) heap.table;
}

abbrev pub erase_ids : List String → Dict ℕ → Dict ℕ
erase_ids [] table = table
erase_ids (id ∷ ids) table = erase_ids ids (erase id table)

module _ (get_opcodes : Matcher) where
  -- what `set_hunk_status` does to a session that it found
  abbrev pub decided_session : String → Status → Option String → NoteEditSession → NoteEditSession
  decided_session hunk_id status text s =
      recompute_current_content get_opcodes
        (record s { hunks = update_hunk hunk_id status text s.hunks })

  abbrev pub change_found : (NoteEditSession → NoteEditSession) → Heap → Option ℕ → Heap
  change_found g heap none = heap
  change_found g heap (some r) = record heap { objects = change_object r g heap.objects }

  -- an operation on the shared sessions
  unfoldable pub operate : Operation get_opcodes → Heap → Heap
  operate (Operation.create id now note proposed summary user_id hunks) heap =
      store_new id heap (create_session id now note proposed summary user_id hunks [])
  operate (Operation.set_status edit_id hunk_id status text) heap =
      change_found (decided_session hunk_id status text) heap (lookup edit_id heap.table)
  operate (Operation.discard edit_id) heap = record heap { table = erase edit_id heap.table }
  operate (Operation.cleanup now max_age) heap = record heap {
    table = erase_ids (expired_ids now max_age (values heap.objects heap.table)) heap.table;
  }
