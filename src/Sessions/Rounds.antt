-- ===== src/Sessions/Rounds.antt =====
-- mcp/toolbridge_mcp/note_edit_sessions.py: a client that decides on the first pending hunk, again and
-- again.
use toolbridge_api.Prelude.{
  ℕ, zero, suc, ◌-◌, String, ◌≡◌, refl, sym, ap, subst, ◌∙◌, inl, inr, Bool, false, ◌⊎◌, some, List,
  [], ◌∷◌, arith, ◌==◌, eq_refl, Bool-cases, length, filter, filter-kept, filter-dropped,
}
use toolbridge_api.Dict.{lookup}
use toolbridge_api.Diff.Types.{is_pending}
use toolbridge_api.Diff.Matcher.{Matcher, IsMatcher}
use toolbridge_api.Sessions.Types.{NoteEditHunkState, NoteEditSession, Sessions}
use toolbridge_api.Sessions.Store.{
  is_pending_hunk, set_hunk_status, get_pending_hunks, get_hunk_counts,
}
use toolbridge_api.Sessions.DecisionMap.{DistinctIds}
use toolbridge_api.Sessions.Paired.{Paired-DistinctIds}
use toolbridge_api.Sessions.Merged.{IsPaired, session_diff}
use toolbridge_api.Sessions.Resolve.{set_hunk_status-updates}
use toolbridge_api.Sessions.Counts.{get_hunk_counts_lem}
use toolbridge_api.Sessions.PendingHunks.{is_other, filter-same, filter-All, others-kept}
use toolbridge_api.Sessions.Settled.{Decision, pending-of, set_hunk_status-pending}

filter-DistinctIds :
    (p : NoteEditHunkState → Bool) (hs : List NoteEditHunkState)
    → DistinctIds hs
    → DistinctIds (filter p hs)
filter-DistinctIds p [] u = tt
filter-DistinctIds p (h ∷ hs) (named, fresh, u) = elim (Bool-cases (p h)) [
  | inl e ↦ subst DistinctIds (sym (filter-kept p h hs e)) (
    named,
    filter-All (λ (g : NoteEditHunkState). (g.id == h.id) ≡ false) p hs fresh,
    filter-DistinctIds p hs u,
  )
  | inr e ↦ subst DistinctIds (sym (filter-dropped p h hs e)) (filter-DistinctIds p hs u)
]

-- without the first one
without-first :
    (h : NoteEditHunkState) (hs : List NoteEditHunkState)
    → DistinctIds (h ∷ hs)
    → filter (is_other h.id) (h ∷ hs) ≡ hs
without-first h hs (named, fresh, u) =
    filter-dropped (is_other h.id) h hs (rw eq_refl)
    ∙ filter-same (is_other h.id) hs (others-kept h.id hs fresh)

list_cases :
    (hs : List NoteEditHunkState)
    → (hs ≡ []) ⊎ ((h : NoteEditHunkState) × (rest : List NoteEditHunkState) × (hs ≡ h ∷ rest))
list_cases [] = inl refl
list_cases (h ∷ hs) = inr (h, hs, refl)

module _ (get_opcodes : Matcher) (edit_id : String) (choose : NoteEditHunkState → Decision) where
  abbrev decide_on : List NoteEditHunkState → Sessions → Sessions
  decide_on [] sessions = sessions
  decide_on (h ∷ hs) sessions =
      (set_hunk_status get_opcodes edit_id h.id (choose h).status (choose h).revised_text
        sessions).1

  -- `k` decisions, each on the hunk that is the first pending one by then
  abbrev pub rounds : ℕ → Sessions → Sessions
  rounds zero sessions = sessions
  rounds (suc k) sessions = rounds k (decide_on (get_pending_hunks edit_id sessions) sessions)

  module _ (m : IsMatcher get_opcodes)
      (decides : (h : NoteEditHunkState) → is_pending (choose h).status ≡ false) where
    -- the number of pending hunks
    abbrev left : Sessions → ℕ
    left sessions = length (get_pending_hunks edit_id sessions)

    abbrev Stored : Sessions → Type 0
    Stored sessions =
        (s : NoteEditSession) × (lookup edit_id sessions ≡ some s) × IsPaired get_opcodes s

    decide_on-left :
        (sessions : Sessions)
        → Stored sessions
        → let after = decide_on (get_pending_hunks edit_id sessions) sessions in
          Stored after × (left after ≡ left sessions - 1)
    decide_on-left sessions (s, found, p) = elim (list_cases (get_pending_hunks edit_id sessions)) [
      | inl e ↦ rw e ((s, found, p), omega (arith, ap length e))
      | inr (h, rest, e) ↦
          let (s', found', u, p') =
            set_hunk_status-updates get_opcodes m edit_id h.id (choose h).status
              (choose h).revised_text sessions s found p in
          let d : Decision = record (choose h) { hunk_id = h.id } in
          let distinct : DistinctIds (h ∷ rest) =
            subst DistinctIds (sym (pending-of edit_id sessions s found) ∙ e) (
              filter-DistinctIds is_pending_hunk s.hunks
                (Paired-DistinctIds 0 s.hunks (session_diff get_opcodes s) p)) in
          let now_pending : get_pending_hunks edit_id (decide_on (h ∷ rest) sessions) ≡ rest =
            set_hunk_status-pending get_opcodes m edit_id d sessions s found p (decides h)
            ∙ ap (filter (is_other h.id)) e
            ∙ without-first h rest distinct in
          rw e ((s', found', p'), omega (arith, ap length now_pending, ap length e))
    ]

    rounds-left :
        (k : ℕ) (sessions : Sessions)
        → Stored sessions
        → left (rounds k sessions) ≡ left sessions - k
    rounds-left zero sessions st = omega arith
    rounds-left (suc k) sessions st =
        let (st', fewer) = decide_on-left sessions st in
        omega (
          arith,
          rounds-left k (decide_on (get_pending_hunks edit_id sessions) sessions) st',
          fewer,
        )

    -- For a stored session whose hunks are those of its diff, and a client that decides on the first
    -- pending hunk in whatever way: after `k` calls the pending count is lower by exactly `k`, so the
    -- client is done after as many calls as the count shows at first.
    pub rounds-pending :
        (k : ℕ) (sessions : Sessions) (s : NoteEditSession)
        → lookup edit_id sessions ≡ some s
        → IsPaired get_opcodes s
        → (get_hunk_counts edit_id (rounds k sessions)).pending
          ≡ (get_hunk_counts edit_id sessions).pending - k
    rounds-pending k sessions s found p = omega (
      arith,
      (get_hunk_counts_lem edit_id (rounds k sessions)).0,
      (get_hunk_counts_lem edit_id sessions).0,
      rounds-left k sessions (s, found, p),
    )
