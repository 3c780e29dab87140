-- ===== src/Sessions/Expiry.antt =====
-- mcp/toolbridge_mcp/note_edit_sessions.py: `cleanup_expired_sessions`.
use toolbridge_api.Prelude.{
  ℕ, ◌+◌, String, ◌≡◌, refl, ap, ◌∙◌, inl, inr, Bool, true, false, Option, none, some, List, [],
  ◌∷◌, arith, ◌==◌, eq_iff, eq_refl, length, Bool-cases, if◌then◌else◌, ltb,
}
use toolbridge_api.Dict.{lookup, erase, lookup-erase, NodupKeys}
use toolbridge_api.Sessions.Types.{NoteEditSession, Sessions}
use toolbridge_api.Sessions.Store.{is_expired, expired_ids, delete_all, cleanup_expired_sessions}

-- `k in ids`
abbrev has_id : String → List String → Bool
has_id k [] = false
has_id k (id ∷ ids) = if id == k then true else has_id k ids

pub lookup-delete_all :
    (ids : List String) (j : String) (d : Sessions)
    → lookup j (delete_all ids d) ≡ (if has_id j ids then none else lookup j d)
lookup-delete_all [] j d = refl
lookup-delete_all (id ∷ ids) j d =
    lookup-delete_all ids j (erase id d) ∙ ground (arith, lookup-erase id j d)

module _ (now max_age : ℕ) where
  -- Independently of the code: what is left of a session's entry.
  abbrev pub survives : Option NoteEditSession → Option NoteEditSession
  survives none = none
  survives (some s) = if ltb (s.created_at + max_age) now then none else some s

  is_expired-older :
      (s : NoteEditSession) → is_expired now max_age s ≡ ltb (s.created_at + max_age) now
  is_expired-older s = ground arith

  expired_ids-fresh :
      (j : String) (d : Sessions) → lookup j d ≡ none → has_id j (expired_ids now max_age d) ≡ false
  unfolding lookup
  expired_ids-fresh j [] e = refl
  expired_ids-fresh j ((k, s) ∷ d) e = ground (arith, expired_ids-fresh j d)

  lookup-expired :
      (j : String) (d : Sessions)
      → NodupKeys d
      → (if has_id j (expired_ids now max_age d) then none else lookup j d) ≡ survives (lookup j d)
  unfolding lookup
  lookup-expired j [] u = refl
  lookup-expired j ((k, s) ∷ d) (fresh, u) =
      ground
        (arith, lookup-expired j d u, expired_ids-fresh k d fresh, eq_iff k j, is_expired-older s)

  erase_fresh : (k : String) (d : Sessions) → lookup k d ≡ none → erase k d ≡ d
  unfolding lookup erase
  erase_fresh k [] e = refl
  erase_fresh k ((j, s) ∷ d) e = ground (arith, erase_fresh k d)

  delete_all-cons :
      (ids : List String) (k : String) (s : NoteEditSession) (d : Sessions)
      → has_id k ids ≡ false
      → delete_all ids ((k, s) ∷ d) ≡ (k, s) ∷ delete_all ids d
  unfolding erase
  delete_all-cons [] k s d e = refl
  delete_all-cons (id ∷ ids) k s d e =
      ground (arith, delete_all-cons ids k s (erase id d), eq_iff k id, eq_iff id k)

  erase_first :
      (k : String) (s : NoteEditSession) (d : Sessions)
      → lookup k d ≡ none
      → erase k ((k, s) ∷ d) ≡ d
  unfolding erase
  erase_first k s d e = ground (arith, eq_refl k, erase_fresh k d e)

  length-delete_all :
      (d : Sessions)
      → NodupKeys d
      → length (delete_all (expired_ids now max_age d) d) + length (expired_ids now max_age d)
        ≡ length d
  length-delete_all [] u = refl
  length-delete_all ((k, s) ∷ d) (fresh, u) = elim (Bool-cases (is_expired now max_age s)) [
    | inl e ↦ rw e (
        omega (
          arith,
          length-delete_all d u,
          ap (λ r. length (delete_all (expired_ids now max_age d) r)) (erase_first k s d fresh),
        ))
    | inr e ↦
        rw (e, delete_all-cons (expired_ids now max_age d) k s d (expired_ids-fresh k d fresh))
          (omega (arith, length-delete_all d u))
  ]

  -- Where no identifier stands twice, `cleanup_expired_sessions` removes the sessions for which more
  -- than `max_age` has passed since they were created, and leaves every other session as it is, and
  -- what it returns and the sessions that are left add up to the sessions before.
  pub cleanup_expired_sessions_lem :
      (sessions : Sessions) (j : String)
      → NodupKeys sessions
      → let r = cleanup_expired_sessions now max_age sessions in
        (lookup j r.1 ≡ survives (lookup j sessions)) × (length r.1 + r.0 ≡ length sessions)
  unfolding cleanup_expired_sessions
  cleanup_expired_sessions_lem sessions j u = (
    lookup-delete_all (expired_ids now max_age sessions) j sessions ∙ lookup-expired j sessions u,
    length-delete_all sessions u,
  )
