-- ===== src/Sessions/Resolve.antt =====
-- From a session's decisions to its content: `set_hunk_status` and its recomputation.
use toolbridge_api.Prelude.{
  String, ◌≡◌, refl, sym, ap, ap₂, subst, subst₂, ◌∙◌, inl, inr, Option, none, some, List, map,
  false, arith, ◌==◌, eq_iff, eq_refl, any, Bool-cases, Option-cases, if◌then◌else◌,
}
use mathlib.Core.Option.{map as map_option}
use toolbridge_api.Dict.{lookup, lookup-insert}
use toolbridge_api.Diff.Types.{Status}
use toolbridge_api.Diff.Matcher.{Matcher, IsMatcher}
use toolbridge_api.Sessions.Types.{NoteEditHunkState, NoteEditSession, Sessions}
use toolbridge_api.Sessions.Store.{
  is_pending_hunk, update_hunk, recompute_current_content, set_hunk_status, content_or_none,
}
use toolbridge_api.Sessions.DecidedHunk.{decided_hunk, update_hunk-map}
use toolbridge_api.Sessions.Paired.{Paired, Paired-DistinctIds, update_hunk-Paired}
use toolbridge_api.Sessions.Merged.{
  merged_texts, session_diff, IsPaired, merged_content-of_resolved,
}

module _ (get_opcodes : Matcher) where
  recompute-hunks :
      (s : NoteEditSession)
      → ((recompute_current_content get_opcodes s).hunks ≡ s.hunks)
        × (session_diff get_opcodes (recompute_current_content get_opcodes s)
            ≡ session_diff get_opcodes s)
  unfolding recompute_current_content
  recompute-hunks s = elim (Bool-cases (any is_pending_hunk s.hunks)) [
    | inl e ↦ rw e (refl, refl)
    | inr e ↦ rw e (refl, refl)
  ]

  recompute-texts :
      (s : NoteEditSession)
      → ((recompute_current_content get_opcodes s).original_content ≡ s.original_content)
        × ((recompute_current_content get_opcodes s).proposed_content ≡ s.proposed_content)
        × ((recompute_current_content get_opcodes s).note_uid ≡ s.note_uid)
        × ((recompute_current_content get_opcodes s).base_version ≡ s.base_version)
  unfolding recompute_current_content
  recompute-texts s = elim (Bool-cases (any is_pending_hunk s.hunks)) [
    | inl e ↦ rw e (refl, refl, refl, refl)
    | inr e ↦ rw e (refl, refl, refl, refl)
  ]

  -- the content that the hunks of a session call for
  abbrev pub content_of : NoteEditSession → Option String
  content_of s =
      if any is_pending_hunk s.hunks
      then none
      else some (merged_texts s.hunks (session_diff get_opcodes s))

  recompute-content :
      (s : NoteEditSession)
      → IsMatcher get_opcodes
      → IsPaired get_opcodes s
      → (recompute_current_content get_opcodes s).current_content ≡ content_of s
  unfolding recompute_current_content
  recompute-content s m p = elim (Bool-cases (any is_pending_hunk s.hunks)) [
    | inl e ↦ rw e
    | inr e ↦ rw e (ap content_or_none (merged_content-of_resolved get_opcodes m s p e))
  ]

  -- the session that `set_hunk_status` leaves in place of `s`
  abbrev updated : NoteEditSession → String → Status → Option String → NoteEditSession
  updated s hunk_id st text =
      recompute_current_content get_opcodes
        (record s { hunks = update_hunk hunk_id st text s.hunks })

  -- `set_hunk_status` returns and stores the updated session, and no other session changes; for an
  -- unknown session it returns nothing and changes nothing.
  set_hunk_status_lem :
      (edit_id hunk_id : String) (st : Status) (text : Option String) (sessions : Sessions)
      (j : String)
      → let r = set_hunk_status get_opcodes edit_id hunk_id st text sessions in
        (r.0 ≡ map_option (λ s. updated s hunk_id st text) (lookup edit_id sessions))
        × (lookup j r.1 ≡ (if edit_id == j then r.0 else lookup j sessions))
  unfolding set_hunk_status
  set_hunk_status_lem edit_id hunk_id st text sessions j =
      elim (Option-cases (lookup edit_id sessions)) [
        | inl e ↦ rw (e, set_hunk_status) (refl, ground (arith, e, eq_iff edit_id j))
        | inr (s, e) ↦
            rw (e, set_hunk_status)
              (refl, lookup-insert edit_id j (updated s hunk_id st text) sessions)
      ]

  updated-IsPaired :
      (s : NoteEditSession) (hunk_id : String) (st : Status) (text : Option String)
      → IsPaired get_opcodes s
      → IsPaired get_opcodes (updated s hunk_id st text)
  updated-IsPaired s hunk_id st text p =
      let (e, f) = recompute-hunks (record s { hunks = update_hunk hunk_id st text s.hunks }) in
      subst₂ (λ hs ds. Paired 0 hs ds) (sym e) (sym f)
        (update_hunk-Paired hunk_id st text 0 s.hunks (session_diff get_opcodes s) p)

  -- What `set_hunk_status` makes of `s`: the texts, the note and the version stay, and the content is that of the hunks.
  pub record IsUpdateOf (s : NoteEditSession) (hs : List NoteEditHunkState) (s' : NoteEditSession)
      : Type 0 where
    pub original : s'.original_content ≡ s.original_content
    pub proposed : s'.proposed_content ≡ s.proposed_content
    pub note_uid : s'.note_uid ≡ s.note_uid
    pub base_version : s'.base_version ≡ s.base_version
    pub hunks : s'.hunks ≡ hs
    pub content : s'.current_content ≡ content_of s'

  module _ (m : IsMatcher get_opcodes) where
    updated-IsUpdateOf :
        (s : NoteEditSession) (hunk_id : String) (st : Status) (text : Option String)
        → IsPaired get_opcodes s
        → IsUpdateOf s (update_hunk hunk_id st text s.hunks) (updated s hunk_id st text)
    updated-IsUpdateOf s hunk_id st text p =
        let s₁ : NoteEditSession = record s { hunks = update_hunk hunk_id st text s.hunks } in
        let (e, f) = recompute-hunks s₁ in
        record {
          original = (recompute-texts s₁).0;
          proposed = (recompute-texts s₁).1;
          note_uid = (recompute-texts s₁).2;
          base_version = (recompute-texts s₁).3;
          hunks = e;
          content =
              recompute-content s₁ m
                (update_hunk-Paired hunk_id st text 0 s.hunks (session_diff get_opcodes s) p)
              ∙ ap₂ (λ hs ds. if any is_pending_hunk hs then none else some (merged_texts hs ds))
                  (sym e) (sym f);
        }

    pub set_hunk_status-updates :
        (edit_id hunk_id : String) (st : Status) (text : Option String) (sessions : Sessions)
        (s : NoteEditSession)
        → lookup edit_id sessions ≡ some s
        → IsPaired get_opcodes s
        → (s' : NoteEditSession) × (lookup edit_id
              (set_hunk_status get_opcodes edit_id hunk_id st text sessions).1
            ≡ some s')
          × IsUpdateOf s (update_hunk hunk_id st text s.hunks) s'
          × IsPaired get_opcodes s'
    set_hunk_status-updates edit_id hunk_id st text sessions s found p =
        let (returned, stored) = set_hunk_status_lem edit_id hunk_id st text sessions edit_id in
        (
          updated s hunk_id st text,
          stored ∙ rw eq_refl (returned ∙ ap (map_option (λ s. updated s hunk_id st text)) found),
          updated-IsUpdateOf s hunk_id st text p,
          updated-IsPaired s hunk_id st text p,
        )

    -- In a session whose hunks are those of its diff, `set_hunk_status` gives the hunk with the given
    -- identifier the status, with the revised text for a revision and with none otherwise, and keeps every
    -- other hunk, the two texts, the note, the base version, and every other session. It leaves the
    -- session with the merged content of its hunks as soon as no changed hunk is pending, and with none before.
    pub set_hunk_status-content :
        (edit_id hunk_id : String) (st : Status) (text : Option String) (sessions : Sessions)
        (s : NoteEditSession)
        → lookup edit_id sessions ≡ some s
        → IsPaired get_opcodes s
        → let after = (set_hunk_status get_opcodes edit_id hunk_id st text sessions).1 in
          ((s' : NoteEditSession) × (lookup edit_id after ≡ some s')
            × IsUpdateOf s (map (decided_hunk hunk_id st text) s.hunks) s'
            × IsPaired get_opcodes s')
          × ((j : String) → (edit_id == j) ≡ false → lookup j after ≡ lookup j sessions)
    set_hunk_status-content edit_id hunk_id st text sessions s found p =
        let (s', stored, update, paired) =
          set_hunk_status-updates edit_id hunk_id st text sessions s found p in
        let e =
          update_hunk-map hunk_id st text s.hunks
            (Paired-DistinctIds 0 s.hunks (session_diff get_opcodes s) p) in
        (
          (s', stored, subst (λ hs. IsUpdateOf s hs s') e update, paired),
          λ j differs. (set_hunk_status_lem edit_id hunk_id st text sessions j).1 ∙ rw differs refl,
        )
