-- ===== src/Sessions/Objects/Kept.antt =====
-- mcp/toolbridge_mcp/note_edit_sessions.py: what the operations leave of the shared sessions.
use mathlib.Core.Option.{some-injective}
use toolbridge_api.Prelude.{
  ℕ, zero, suc, String, ◌≡◌, refl, sym, ap, subst, ◌⊎◌, inl, inr, Option, none, some, List, [], ◌∷◌,
  ◌++◌, any, Bool-cases,
}
use toolbridge_api.Errors.{Result, ok, err, Result-cases}
use toolbridge_api.Dict.{lookup}
use toolbridge_api.Diff.Types.{Status, DiffHunk}
use toolbridge_api.Diff.Matcher.{Matcher}
use toolbridge_api.Notes.Types.{Note, text_or}
use toolbridge_api.Sessions.Types.{NoteEditSession, Sessions}
use toolbridge_api.Sessions.Store.{
  create_session, is_pending_hunk, recompute_current_content, update_hunk,
}
use toolbridge_api.Sessions.Consistent.{Operation, IsFresh, recompute-IsFresh}
use toolbridge_api.Sessions.Objects.{
  Heap, object, change_object, store_new, decided_session, change_found, operate,
}

object-append :
    (r : ℕ) (xs ys : List NoteEditSession) (s : NoteEditSession)
    → object r xs ≡ some s
    → object r (xs ++ ys) ≡ some s
object-append zero [] ys s e = absurd cc
object-append (suc r) [] ys s e = absurd cc
object-append zero (x ∷ xs) ys s e = e
object-append (suc r) (x ∷ xs) ys s e = object-append r xs ys s e

object-last :
    (r : ℕ) (xs : List NoteEditSession) (x s : NoteEditSession)
    → object r (xs ++ (x ∷ [])) ≡ some s
    → (object r xs ≡ some s) ⊎ (s ≡ x)
object-last zero [] x s e = inr (sym (some-injective x s e))
object-last (suc r) [] x s e = inl e
object-last zero (y ∷ xs) x s e = inl e
object-last (suc r) (y ∷ xs) x s e = object-last r xs x s e

module _ (g : NoteEditSession → NoteEditSession) where
  -- an object after a change is one before it, or what the change makes of one
  object-changed :
      (r i : ℕ) (xs : List NoteEditSession) (t : NoteEditSession)
      → object r (change_object i g xs) ≡ some t
      → (object r xs ≡ some t) ⊎ ((s : NoteEditSession) × (object r xs ≡ some s) × (t ≡ g s))
  object-changed r i [] t e = inl e
  object-changed zero zero (x ∷ xs) t e = inr (x, refl, sym (some-injective (g x) t e))
  object-changed zero (suc i) (x ∷ xs) t e = inl e
  object-changed (suc r) zero (x ∷ xs) t e = inl e
  object-changed (suc r) (suc i) (x ∷ xs) t e = object-changed r i xs t e

  object-change :
      (r i : ℕ) (xs : List NoteEditSession) (s : NoteEditSession)
      → object r xs ≡ some s
      → (object r (change_object i g xs) ≡ some s) ⊎ (object r (change_object i g xs) ≡ some (g s))
  object-change r i [] s e = inl e
  object-change zero zero (x ∷ xs) s e = inr (ap some (ap g (some-injective x s e)))
  object-change zero (suc i) (x ∷ xs) s e = inl e
  object-change (suc r) zero (x ∷ xs) s e = inl e
  object-change (suc r) (suc i) (x ∷ xs) s e = object-change r i xs s e

-- the object behind a reference stays, and its note
abbrev pub KeptIn : List NoteEditSession → ℕ → NoteEditSession → Type 0
KeptIn objects r s = (t : NoteEditSession) × (object r objects ≡ some t) × (t.note_uid ≡ s.note_uid)

module _ (get_opcodes : Matcher) where
  -- every object that shows a content shows what its decisions make
  abbrev pub AllFresh : List NoteEditSession → Type 0
  AllFresh objects =
      (r : ℕ) (s : NoteEditSession) → object r objects ≡ some s → IsFresh get_opcodes s

  decided-note_uid :
      (hunk_id : String) (st : Status) (text : Option String) (s : NoteEditSession)
      → (decided_session get_opcodes hunk_id st text s).note_uid ≡ s.note_uid
  unfolding recompute_current_content
  decided-note_uid hunk_id st text s =
      elim (Bool-cases (any is_pending_hunk (update_hunk hunk_id st text s.hunks))) [
        | inl e ↦ rw e
        | inr e ↦ rw e
      ]

  -- the objects after a decision
  change_found-AllFresh :
      (hunk_id : String) (st : Status) (text : Option String) (heap : Heap) (found : Option ℕ)
      → AllFresh heap.objects
      → AllFresh
          (change_found get_opcodes
            (decided_session get_opcodes hunk_id st text)
            heap
            found).objects
  change_found-AllFresh hunk_id st text heap none a r t e = a r t e
  change_found-AllFresh hunk_id st text heap (some i) a r t e =
      elim (object-changed (decided_session get_opcodes hunk_id st text) r i heap.objects t e) [
        | inl same ↦ a r t same
        | inr (s, found, made) ↦ subst (IsFresh get_opcodes) (sym made) (
            recompute-IsFresh get_opcodes
              (record s { hunks = update_hunk hunk_id st text s.hunks }))
      ]

  change_found-KeptIn :
      (hunk_id : String) (st : Status) (text : Option String) (heap : Heap) (found : Option ℕ)
      (r : ℕ) (s : NoteEditSession)
      → object r heap.objects ≡ some s
      → KeptIn
          (change_found get_opcodes
            (decided_session get_opcodes hunk_id st text)
            heap
            found).objects
          r
          s
  change_found-KeptIn hunk_id st text heap none r s e = (s, e, refl)
  change_found-KeptIn hunk_id st text heap (some i) r s e =
      let g = decided_session get_opcodes hunk_id st text in
      elim (object-change g r i heap.objects s e) [
        | inl same ↦ (s, same, refl)
        | inr made ↦ (g s, made, decided-note_uid hunk_id st text s)
      ]

  -- a new session shows no content
  abbrev NewFresh : Result (NoteEditSession × Sessions) → Type 0
  NewFresh (ok (s, sessions)) = IsFresh get_opcodes s
  NewFresh (err e) = Unit

  create_session-NewFresh :
      (id : String) (now : ℕ) (note : Note) (proposed : String) (summary user_id : Option String)
      (hunks : Option (List DiffHunk))
      → NewFresh (create_session id now note proposed summary user_id hunks [])
  unfolding create_session
  create_session-NewFresh id now note proposed summary user_id hunks =
      elim (Result-cases (text_or note.payload "title" "Untitled note")) [
        | inl (title, e) ↦ elim (Result-cases (text_or note.payload "content" "")) [
          | inl (content, f) ↦ rw (e, f) tt
          | inr (x, f) ↦ rw (e, f) tt
        ]
        | inr (x, e) ↦ rw e tt
      ]

  store_new-AllFresh :
      (id : String) (heap : Heap) (r : Result (NoteEditSession × Sessions))
      → NewFresh r
      → AllFresh heap.objects
      → AllFresh (store_new id heap r).objects
  store_new-AllFresh id heap (err e) n a r s f = a r s f
  store_new-AllFresh id heap (ok (x, sessions)) n a r s e =
      elim (object-last r heap.objects x s e) [
        | inl same ↦ a r s same
        | inr new ↦ subst (IsFresh get_opcodes) (sym new) n
      ]

  store_new-KeptIn :
      (id : String) (heap : Heap) (made : Result (NoteEditSession × Sessions)) (r : ℕ)
      (s : NoteEditSession)
      → object r heap.objects ≡ some s
      → KeptIn (store_new id heap made).objects r s
  store_new-KeptIn id heap (err e) r s f = (s, f, refl)
  store_new-KeptIn id heap (ok (x, sessions)) r s f =
      (s, object-append r heap.objects (x ∷ []) s f, refl)

  pub operate-AllFresh :
      (o : Operation get_opcodes) (heap : Heap)
      → AllFresh heap.objects
      → AllFresh (operate get_opcodes o heap).objects
  unfolding operate
  operate-AllFresh (Operation.create id now note proposed summary user_id hunks) heap a =
      store_new-AllFresh id heap _
        (create_session-NewFresh id now note proposed summary user_id hunks) a
  operate-AllFresh (Operation.set_status edit_id hunk_id st text) heap a =
      change_found-AllFresh hunk_id st text heap (lookup edit_id heap.table) a
  operate-AllFresh (Operation.discard edit_id) heap a = a
  operate-AllFresh (Operation.cleanup now max_age) heap a = a

  pub operate-KeptIn :
      (o : Operation get_opcodes) (heap : Heap) (r : ℕ) (s : NoteEditSession)
      → object r heap.objects ≡ some s
      → KeptIn (operate get_opcodes o heap).objects r s
  unfolding operate
  operate-KeptIn (Operation.create id now note proposed summary user_id hunks) heap r s e =
      store_new-KeptIn id heap (create_session id now note proposed summary user_id hunks []) r s e
  operate-KeptIn (Operation.set_status edit_id hunk_id st text) heap r s e =
      change_found-KeptIn hunk_id st text heap (lookup edit_id heap.table) r s e
  operate-KeptIn (Operation.discard edit_id) heap r s e = (s, e, refl)
  operate-KeptIn (Operation.cleanup now max_age) heap r s e = (s, e, refl)
