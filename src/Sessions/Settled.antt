-- ===== src/Sessions/Settled.antt =====
-- mcp/toolbridge_mcp/note_edit_sessions.py: a client that decides until nothing is pending.
use toolbridge_api.Prelude.{
  String, ◌≡◌, refl, sym, ap, subst, ◌∙◌, inl, inr, Bool, true, false, Option, some, List, [], ◌∷◌,
  arith, ◌==◌, eq_iff, Bool-cases, any, filter, filter-kept, filter-dropped, All,
}
use toolbridge_api.Errors.{ok}
use toolbridge_api.Dict.{lookup}
use toolbridge_api.Diff.Types.{Status, is_pending}
use toolbridge_api.Diff.Matcher.{Matcher, IsMatcher}
use toolbridge_api.Sessions.Types.{NoteEditHunkState, NoteEditSession, Sessions}
use toolbridge_api.Sessions.Store.{
  is_pending_hunk, merged_content, set_hunk_status, get_pending_hunks,
}
use toolbridge_api.Sessions.Paired.{Paired-DistinctIds}
use toolbridge_api.Sessions.Merged.{
  IsPaired, session_diff, merged_texts, merged_content-of_resolved,
}
use toolbridge_api.Sessions.Resolve.{set_hunk_status-updates, content_of}
use toolbridge_api.Sessions.PendingHunks.{is_other, filter-update_hunk}

-- the arguments of `set_hunk_status` beside the session
pub record Decision : Type 0 where
  pub hunk_id : String
  pub status : Status
  pub revised_text : Option String

abbrev pub Decides : Decision → Type 0
Decides d = is_pending d.status ≡ false

-- the decisions name the hunk
abbrev pub names : List Decision → NoteEditHunkState → Bool
names ds h = any (λ (d : Decision). d.hunk_id == h.id) ds

pub pending-of :
    (edit_id : String) (sessions : Sessions) (s : NoteEditSession)
    → lookup edit_id sessions ≡ some s
    → get_pending_hunks edit_id sessions ≡ filter is_pending_hunk s.hunks
unfolding get_pending_hunks
pending-of edit_id sessions s found = rw (found, get_pending_hunks)

filter-none :
    (hs : List NoteEditHunkState) → filter is_pending_hunk hs ≡ [] → any is_pending_hunk hs ≡ false
filter-none [] e = refl
filter-none (h ∷ hs) e = elim (Bool-cases (is_pending_hunk h)) [
  | inl p ↦ absurd (let c = sym (filter-kept is_pending_hunk h hs p) ∙ e in cc)
  | inr p ↦ rw p (filter-none hs (sym (filter-dropped is_pending_hunk h hs p) ∙ e))
]

-- the hunks that the first decision leaves are named by the others
names-others :
    (d : Decision) (ds : List Decision) (hs : List NoteEditHunkState)
    → All (λ (h : NoteEditHunkState). names (d ∷ ds) h ≡ true) hs
    → All (λ (h : NoteEditHunkState). names ds h ≡ true) (filter (is_other d.hunk_id) hs)
names-others d ds [] a = tt
names-others d ds (h ∷ hs) (n, a) =
    let Named : NoteEditHunkState → Type 0 = λ (g : NoteEditHunkState). names ds g ≡ true in
    elim (Bool-cases (h.id == d.hunk_id)) [
      | inl e ↦
          subst (All Named) (sym (filter-dropped (is_other d.hunk_id) h hs (rw e)))
            (names-others d ds hs a)
      | inr e ↦
          let differ : (d.hunk_id == h.id) ≡ false =
            ground (arith, e, eq_iff d.hunk_id h.id, eq_iff h.id d.hunk_id) in
          let named : names ds h ≡ true = ground (arith, n, differ) in
          subst (All Named) (sym (filter-kept (is_other d.hunk_id) h hs (rw e)))
            (named, names-others d ds hs a)
    ]

none-named :
    (hs : List NoteEditHunkState) → All (λ (h : NoteEditHunkState). names [] h ≡ true) hs → hs ≡ []
none-named [] a = refl
none-named (h ∷ hs) (e, a) = absurd cc

module _ (get_opcodes : Matcher) (edit_id : String) where
  -- the decisions, one call each
  abbrev pub decide_seq : List Decision → Sessions → Sessions
  decide_seq [] sessions = sessions
  decide_seq (d ∷ ds) sessions =
      decide_seq ds
        (set_hunk_status get_opcodes edit_id d.hunk_id d.status d.revised_text sessions).1

module _ (get_opcodes : Matcher) (m : IsMatcher get_opcodes) (edit_id : String) where
  -- A decision takes its hunk, and no other, from the pending ones of a session whose hunks are those of
  -- its diff.
  pub set_hunk_status-pending :
      (d : Decision) (sessions : Sessions) (s : NoteEditSession)
      → lookup edit_id sessions ≡ some s
      → IsPaired get_opcodes s
      → Decides d
      → get_pending_hunks edit_id
          (set_hunk_status get_opcodes edit_id d.hunk_id d.status d.revised_text sessions).1
        ≡ filter (is_other d.hunk_id) (get_pending_hunks edit_id sessions)
  set_hunk_status-pending d sessions s found p decided =
      let (s', found', u, p') =
        set_hunk_status-updates get_opcodes m edit_id d.hunk_id d.status d.revised_text sessions s
          found p in
      let distinct = Paired-DistinctIds 0 s.hunks (session_diff get_opcodes s) p in
      let after =
        (set_hunk_status get_opcodes edit_id d.hunk_id d.status d.revised_text sessions).1 in
      pending-of edit_id after s' found'
      ∙ ap (filter is_pending_hunk) u.hunks
      ∙ filter-update_hunk d.hunk_id d.status d.revised_text decided s.hunks distinct
      ∙ ap (filter (is_other d.hunk_id)) (sym (pending-of edit_id sessions s found))

  -- what deciding on all pending hunks comes to
  abbrev pub Settled : Sessions → Type 0
  Settled sessions =
      (s : NoteEditSession) × (content : String) × (lookup edit_id sessions ≡ some s)
      × (s.current_content ≡ some content)
      × (merged_content get_opcodes s ≡ ok content)
      × (get_pending_hunks edit_id sessions ≡ [])

  settled :
      (sessions : Sessions) (s : NoteEditSession)
      → lookup edit_id sessions ≡ some s
      → IsPaired get_opcodes s
      → s.current_content ≡ content_of get_opcodes s
      → get_pending_hunks edit_id sessions ≡ []
      → Settled sessions
  settled sessions s found p content none_pending =
      let resolved : any is_pending_hunk s.hunks ≡ false =
        filter-none s.hunks (sym (pending-of edit_id sessions s found) ∙ none_pending) in
      (
        s,
        merged_texts s.hunks (session_diff get_opcodes s),
        found,
        content ∙ rw resolved,
        merged_content-of_resolved get_opcodes m s p resolved,
        none_pending,
      )

  -- after a first decision, whose call has brought the content up to date
  rest-Settled :
      (ds : List Decision) (sessions : Sessions) (s : NoteEditSession)
      → lookup edit_id sessions ≡ some s
      → IsPaired get_opcodes s
      → s.current_content ≡ content_of get_opcodes s
      → All Decides ds
      → All (λ (h : NoteEditHunkState). names ds h ≡ true) (get_pending_hunks edit_id sessions)
      → Settled (decide_seq get_opcodes edit_id ds sessions)
  rest-Settled [] sessions s found p content tt named =
      settled sessions s found p content (none-named (get_pending_hunks edit_id sessions) named)
  rest-Settled (d ∷ ds) sessions s found p content (decided, more) named =
      let (s', found', u, p') =
        set_hunk_status-updates get_opcodes m edit_id d.hunk_id d.status d.revised_text sessions s
          found p in
      rest-Settled ds
        (set_hunk_status get_opcodes edit_id d.hunk_id d.status d.revised_text sessions).1 s' found'
        p' u.content more
        (subst (All (λ (h : NoteEditHunkState). names ds h ≡ true))
          (sym (set_hunk_status-pending d sessions s found p decided))
          (names-others d ds (get_pending_hunks edit_id sessions) named))

  -- For a stored session whose hunks are those of its diff: any sequence of decisions, at least one,
  -- that names every pending hunk, in any order and with others between, ends with nothing pending and
  -- with the session showing a content, which is the one that its decisions make.
  pub decide_seq-settles :
      (d : Decision) (ds : List Decision) (sessions : Sessions) (s : NoteEditSession)
      → lookup edit_id sessions ≡ some s
      → IsPaired get_opcodes s
      → All Decides (d ∷ ds)
      → All
          (λ (h : NoteEditHunkState). names (d ∷ ds) h ≡ true)
          (get_pending_hunks edit_id sessions)
      → Settled (decide_seq get_opcodes edit_id (d ∷ ds) sessions)
  decide_seq-settles d ds sessions s found p (decided, more) named =
      let (s', found', u, p') =
        set_hunk_status-updates get_opcodes m edit_id d.hunk_id d.status d.revised_text sessions s
          found p in
      rest-Settled ds
        (set_hunk_status get_opcodes edit_id d.hunk_id d.status d.revised_text sessions).1 s' found'
        p' u.content more
        (subst (All (λ (h : NoteEditHunkState). names ds h ≡ true))
          (sym (set_hunk_status-pending d sessions s found p decided))
          (names-others d ds (get_pending_hunks edit_id sessions) named))
