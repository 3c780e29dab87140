-- ===== src/Sessions/Consistent.antt =====
-- mcp/toolbridge_mcp/note_edit_sessions.py: the content of a stored session over sequences of operations.
use mathlib.Core.Option.{some-injective}
use toolbridge_api.Prelude.{
  ℕ, String, ◌≡◌, refl, sym, ap, subst, ◌∙◌, if◌then◌else◌, inl, inr, false, Option, none, some,
  List, [], ◌∷◌, ◌==◌, any, Bool-cases, Option-cases,
}
use toolbridge_api.Errors.{Result, ok, err, Result-cases}
use toolbridge_api.Dict.{lookup, insert, erase}
use toolbridge_api.Diff.Types.{Status, DiffHunk}
use toolbridge_api.Diff.Matcher.{Matcher, IsMatcher}
use toolbridge_api.Notes.Types.{Note, text_or}
use toolbridge_api.Sessions.Types.{NoteEditSession, Sessions}
use toolbridge_api.Sessions.Content.{IsMergedContent, merged_content-IsMergedContent}
use toolbridge_api.Sessions.Store.{
  create_session, discard_session, delete_all, expired_ids, cleanup_expired_sessions,
  is_pending_hunk, merged_content, recompute_current_content, content_or_none, update_hunk,
  set_hunk_status,
}

-- every stored session satisfies `P`
abbrev pub AllSessions : (NoteEditSession → Type 0) → Sessions → Type 0
AllSessions P [] = Unit
AllSessions P ((k, s) ∷ d) = P s × AllSessions P d

module _ (P : NoteEditSession → Type 0) where
  pub lookup-AllSessions :
      (k : String) (d : Sessions) (s : NoteEditSession)
      → AllSessions P d
      → lookup k d ≡ some s
      → P s
  unfolding lookup
  lookup-AllSessions k [] s a e = absurd cc
  lookup-AllSessions k ((j, t) ∷ d) s (p, a) e = elim (Bool-cases (j == k)) [
    | inl same ↦
        subst P (some-injective t s (sym (ap (λ b. if b then some t else lookup k d) same) ∙ e)) p
    | inr differ ↦
        lookup-AllSessions k d s a (sym (ap (λ b. if b then some t else lookup k d) differ) ∙ e)
  ]

  insert-AllSessions :
      (k : String) (s : NoteEditSession) (d : Sessions)
      → P s
      → AllSessions P d
      → AllSessions P (insert k s d)
  unfolding insert
  insert-AllSessions k s [] p a = (p, tt)
  insert-AllSessions k s ((j, t) ∷ d) p (q, a) = elim (Bool-cases (j == k)) [
    | inl e ↦ rw e (p, a)
    | inr e ↦ rw e (q, insert-AllSessions k s d p a)
  ]

  erase-AllSessions : (k : String) (d : Sessions) → AllSessions P d → AllSessions P (erase k d)
  unfolding erase
  erase-AllSessions k [] a = tt
  erase-AllSessions k ((j, t) ∷ d) (q, a) = elim (Bool-cases (j == k)) [
    | inl e ↦ rw e (erase-AllSessions k d a)
    | inr e ↦ rw e (q, erase-AllSessions k d a)
  ]

  delete_all-AllSessions :
      (ids : List String) (d : Sessions) → AllSessions P d → AllSessions P (delete_all ids d)
  delete_all-AllSessions [] d a = a
  delete_all-AllSessions (id ∷ ids) d a =
      delete_all-AllSessions ids (erase id d) (erase-AllSessions id d a)

module _ (get_opcodes : Matcher) where
  -- A session that shows a content has no pending hunk, and the content is what its decisions make.
  abbrev pub FreshAt : Option String → NoteEditSession → Type 0
  FreshAt none s = Unit
  FreshAt (some c) s = (any is_pending_hunk s.hunks ≡ false) × (merged_content get_opcodes s ≡ ok c)

  abbrev pub IsFresh : NoteEditSession → Type 0
  IsFresh s = FreshAt s.current_content s

  FreshAt-merged :
      (r : Result String) (s : NoteEditSession)
      → any is_pending_hunk s.hunks ≡ false
      → merged_content get_opcodes s ≡ r
      → FreshAt (content_or_none r) s
  FreshAt-merged (ok c) s p e = (p, e)
  FreshAt-merged (err x) s p e = tt

  pub recompute-IsFresh : (s : NoteEditSession) → IsFresh (recompute_current_content get_opcodes s)
  unfolding recompute_current_content merged_content
  recompute-IsFresh s = elim (Bool-cases (any is_pending_hunk s.hunks)) [
    | inl p ↦ rw p tt
    | inr p ↦
        let r = merged_content get_opcodes s in
        rw p (FreshAt-merged r (record s { current_content = content_or_none r }) p refl)
  ]

  -- the operations that change the sessions, with their arguments
  pub data Operation : Type 0 where
    create :
        String
        → ℕ
        → Note
        → String
        → Option String
        → Option String
        → Option (List DiffHunk)
        → Operation
    set_status : String → String → Status → Option String → Operation
    discard : String → Operation
    cleanup : ℕ → ℕ → Operation

  -- the sessions after `create_session`, which may raise before it stores anything
  abbrev pub stored_or : Sessions → Result (NoteEditSession × Sessions) → Sessions
  stored_or sessions (ok (s, stored)) = stored
  stored_or sessions (err e) = sessions

  unfoldable pub run : Operation → Sessions → Sessions
  run (create id now note proposed summary user_id hunks) d =
      stored_or d (create_session id now note proposed summary user_id hunks d)
  run (set_status edit_id hunk_id st text) d =
      (set_hunk_status get_opcodes edit_id hunk_id st text d).1
  run (discard edit_id) d = (discard_session edit_id d).1
  run (cleanup now max_age) d = (cleanup_expired_sessions now max_age d).1

  abbrev pub run_all : List Operation → Sessions → Sessions
  run_all [] d = d
  run_all (o ∷ os) d = run_all os (run o d)

  set_status-IsFresh :
      (edit_id hunk_id : String) (st : Status) (text : Option String) (d : Sessions)
      → AllSessions IsFresh d
      → AllSessions IsFresh (set_hunk_status get_opcodes edit_id hunk_id st text d).1
  unfolding set_hunk_status
  set_status-IsFresh edit_id hunk_id st text d a = elim (Option-cases (lookup edit_id d)) [
    | inl e ↦ rw (e, AllSessions, set_hunk_status) a
    | inr (s, e) ↦
        rw (e, AllSessions, set_hunk_status)
          (insert-AllSessions IsFresh edit_id _ d
            (recompute-IsFresh (record s { hunks = update_hunk hunk_id st text s.hunks })) a)
  ]

  run-IsFresh :
      (o : Operation) (d : Sessions) → AllSessions IsFresh d → AllSessions IsFresh (run o d)
  unfolding run create_session discard_session cleanup_expired_sessions
  run-IsFresh (create id now note proposed summary user_id hunks) d a =
      elim (Result-cases (text_or note.payload "title" "Untitled note")) [
        | inl (title, e) ↦ elim (Result-cases (text_or note.payload "content" "")) [
          | inl (content, f) ↦ rw (e, f) (insert-AllSessions IsFresh id _ d tt a)
          | inr (x, f) ↦ rw (e, f) a
        ]
        | inr (x, e) ↦ rw e a
      ]
  run-IsFresh (set_status edit_id hunk_id st text) d a =
      set_status-IsFresh edit_id hunk_id st text d a
  run-IsFresh (discard edit_id) d a = erase-AllSessions IsFresh edit_id d a
  run-IsFresh (cleanup now max_age) d a =
      delete_all-AllSessions IsFresh (expired_ids now max_age d) d a

  pub sessions-IsFresh : (os : List Operation) → AllSessions IsFresh (run_all os [])
  sessions-IsFresh os = go os [] tt
    where
      go :
          (os : List Operation) (d : Sessions)
          → AllSessions IsFresh d
          → AllSessions IsFresh (run_all os d)
      go [] d a = a
      go (o ∷ os) d a = go os (run o d) (run-IsFresh o d a)

  -- A session that shows a content has no pending hunk, and the content is the merged one.
  abbrev pub ShownAt : Option String → NoteEditSession → Type 0
  ShownAt none s = Unit
  ShownAt (some content) s =
      (any is_pending_hunk s.hunks ≡ false) × IsMergedContent get_opcodes s content

  abbrev pub IsShown : NoteEditSession → Type 0
  IsShown s = ShownAt s.current_content s

  ShownAt-of_fresh :
      (shown : Option String) (s : NoteEditSession)
      → IsMatcher get_opcodes
      → FreshAt shown s
      → ShownAt shown s
  ShownAt-of_fresh none s m fresh = tt
  ShownAt-of_fresh (some content) s m (resolved, merged) =
      (resolved, merged_content-IsMergedContent get_opcodes s content m merged)

  IsShown-of_fresh :
      (d : Sessions) → IsMatcher get_opcodes → AllSessions IsFresh d → AllSessions IsShown d
  IsShown-of_fresh [] m a = tt
  IsShown-of_fresh ((k, s) ∷ d) m (fresh, a) =
      (ShownAt-of_fresh s.current_content s m fresh, IsShown-of_fresh d m a)

  -- For every matcher that keeps its documentation, and after any sequence of session operations
  -- that starts from no sessions: a stored session that shows a content has no pending changed hunk,
  -- every changed hunk of its full diff is decided on by the last of its hunks with that identifier,
  -- and the content is that of these decisions, hunk by hunk.
  pub sessions_never_stale :
      IsMatcher get_opcodes → (os : List Operation) → AllSessions IsShown (run_all os [])
  sessions_never_stale m os = IsShown-of_fresh (run_all os []) m (sessions-IsFresh os)
