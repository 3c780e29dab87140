-- ===== src/Sessions/EachHunk.antt =====
-- A user who gives every hunk the same decision, one hunk after the other.
use toolbridge_api.Prelude.{
  String, ◌≡◌, ◌≢◌, refl, sym, ap, subst, ◌∙◌, false, none, some, List, [], ◌∷◌, any,
}
use toolbridge_api.Dict.{lookup}
use toolbridge_api.Diff.Types.{Status, is_pending}
use toolbridge_api.Diff.Matcher.{Matcher, IsMatcher}
use toolbridge_api.Diff.Cover.{compute_line_diff-covers}
use toolbridge_api.Diff.Outcomes.{compute_line_diff-IsProper}
use toolbridge_api.Sessions.Types.{NoteEditHunkState, NoteEditSession, Sessions}
use toolbridge_api.Sessions.Store.{is_pending_hunk, update_hunk, set_hunk_status}
use toolbridge_api.Sessions.Paired.{Paired-DistinctIds}
use toolbridge_api.Sessions.Merged.{
  merged_texts, session_diff, IsPaired, AllStatus, merged-accepted, merged-rejected,
}
use toolbridge_api.Sessions.UpdateEach.{
  ids_of, update_each, update_each-AllStatus, AllStatus-resolved, ids_of-ne-nil,
}
use toolbridge_api.Sessions.Resolve.{content_of, IsUpdateOf, set_hunk_status-updates}

module _ (get_opcodes : Matcher) where
  -- `set_hunk_status` with the status `st`, once for each identifier
  pub decide_each : String → Status → List String → Sessions → Sessions
  decide_each edit_id st [] sessions = sessions
  decide_each edit_id st (id ∷ ids) sessions =
      decide_each edit_id st ids (set_hunk_status get_opcodes edit_id id st none sessions).1

  module _ (m : IsMatcher get_opcodes) (edit_id : String) (st : Status) where
    IsUpdateOf-trans :
        (ids : List String) {s s₁ s₂ : NoteEditSession} (hs : List NoteEditHunkState)
        → IsUpdateOf get_opcodes s hs s₁
        → IsUpdateOf get_opcodes s₁ (update_each st ids s₁.hunks) s₂
        → IsUpdateOf get_opcodes s (update_each st ids hs) s₂
    IsUpdateOf-trans ids hs u₁ u₂ = record {
      original = u₂.original ∙ u₁.original;
      proposed = u₂.proposed ∙ u₁.proposed;
      note_uid = u₂.note_uid ∙ u₁.note_uid;
      base_version = u₂.base_version ∙ u₁.base_version;
      hunks = u₂.hunks ∙ ap (update_each st ids) u₁.hunks;
      content = u₂.content;
    }

    decide_each-IsUpdateOf :
        (ids : List String) (sessions : Sessions) (s : NoteEditSession)
        → lookup edit_id sessions ≡ some s
        → IsPaired get_opcodes s
        → s.current_content ≡ content_of get_opcodes s
        → (s' : NoteEditSession) × (lookup edit_id (decide_each edit_id st ids sessions) ≡ some s')
          × IsUpdateOf get_opcodes s (update_each st ids s.hunks) s'
          × IsPaired get_opcodes s'
    unfolding decide_each update_each
    decide_each-IsUpdateOf [] sessions s found p c = (
      s,
      found,
      record {
        original = refl;
        proposed = refl;
        note_uid = refl;
        base_version = refl;
        hunks = refl;
        content = c;
      },
      p,
    )
    decide_each-IsUpdateOf (id ∷ ids) sessions s found p c =
        let (s₁, found₁, u₁, p₁) =
          set_hunk_status-updates get_opcodes m edit_id id st none sessions s found p in
        let (s₂, found₂, u₂, p₂) =
          decide_each-IsUpdateOf ids (set_hunk_status get_opcodes edit_id id st none sessions).1 s₁
            found₁ p₁ u₁.content in
        (s₂, found₂, IsUpdateOf-trans ids (update_hunk id st none s.hunks) u₁ u₂, p₂)

    -- After a first update the content needs no assumption.
    decide_each-nonempty :
        (ids : List String) (sessions : Sessions) (s : NoteEditSession)
        → ids ≢ []
        → lookup edit_id sessions ≡ some s
        → IsPaired get_opcodes s
        → (s' : NoteEditSession) × (lookup edit_id (decide_each edit_id st ids sessions) ≡ some s')
          × IsUpdateOf get_opcodes s (update_each st ids s.hunks) s'
          × IsPaired get_opcodes s'
    unfolding decide_each update_each
    decide_each-nonempty [] sessions s n found p = absurd (n refl)
    decide_each-nonempty (id ∷ ids) sessions s n found p =
        let (s₁, found₁, u₁, p₁) =
          set_hunk_status-updates get_opcodes m edit_id id st none sessions s found p in
        let (s₂, found₂, u₂, p₂) =
          decide_each-IsUpdateOf ids (set_hunk_status get_opcodes edit_id id st none sessions).1 s₁
            found₁ p₁ u₁.content in
        (s₂, found₂, IsUpdateOf-trans ids (update_hunk id st none s.hunks) u₁ u₂, p₂)

    -- When every hunk has the same decision the content is the merged text.
    decide_each-content :
        (sessions : Sessions) (s : NoteEditSession)
        → lookup edit_id sessions ≡ some s
        → IsPaired get_opcodes s
        → s.hunks ≢ []
        → is_pending st ≡ false
        → (s' : NoteEditSession) × (lookup edit_id
              (decide_each edit_id st (ids_of s.hunks) sessions)
            ≡ some s')
          × IsUpdateOf get_opcodes s (update_each st (ids_of s.hunks) s.hunks) s'
          × IsPaired get_opcodes s'
          × AllStatus st s'.hunks
          × (any is_pending_hunk s'.hunks ≡ false)
          × (s'.current_content ≡ some (merged_texts s'.hunks (session_diff get_opcodes s')))
    decide_each-content sessions s found p n resolved =
        let (s', found', u, p') =
          decide_each-nonempty (ids_of s.hunks) sessions s (ids_of-ne-nil s.hunks n) found p in
        let all = subst (AllStatus st) (sym u.hunks) (
          update_each-AllStatus st s.hunks
            (Paired-DistinctIds 0 s.hunks (session_diff get_opcodes s) p)) in
        let settled = AllStatus-resolved st s'.hunks resolved all in
        (s', found', u, p', all, settled, u.content ∙ rw settled)

  module _ (m : IsMatcher get_opcodes) (edit_id : String) (sessions : Sessions)
      (s : NoteEditSession) where
    -- In a stored session with hunks, which are those of its diff: accepting every hunk, one by one,
    -- leaves the session under the same identifier with the proposed content as its
    -- content, no hunk pending, and the same note and base version.
    pub accept_each-content :
        lookup edit_id sessions ≡ some s
        → IsPaired get_opcodes s
        → s.hunks ≢ []
        → (s' : NoteEditSession) × (lookup edit_id
              (decide_each edit_id Status.accepted (ids_of s.hunks) sessions)
            ≡ some s')
          × (s'.current_content ≡ some s.proposed_content)
          × (any is_pending_hunk s'.hunks ≡ false)
          × (s'.note_uid ≡ s.note_uid)
          × (s'.base_version ≡ s.base_version)
    accept_each-content found p n =
        let (s', found', u, p', all, settled, c) =
          decide_each-content m edit_id Status.accepted sessions s found p n refl in
        let diff = session_diff get_opcodes s' in
        let proper =
          compute_line_diff-IsProper get_opcodes s'.original_content s'.proposed_content 5 m in
        let covers =
          compute_line_diff-covers get_opcodes m 5 s'.original_content s'.proposed_content in
        (
          s',
          found',
          c ∙ ap some (merged-accepted s'.hunks diff 0 p' proper all ∙ covers.1 ∙ u.proposed),
          settled,
          u.note_uid,
          u.base_version,
        )

    -- In a stored session with hunks, which are those of its diff: rejecting every hunk, one by one,
    -- leaves the session under the same identifier with the original content as its
    -- content, no hunk pending, and the same note and base version.
    pub reject_each-content :
        lookup edit_id sessions ≡ some s
        → IsPaired get_opcodes s
        → s.hunks ≢ []
        → (s' : NoteEditSession) × (lookup edit_id
              (decide_each edit_id Status.rejected (ids_of s.hunks) sessions)
            ≡ some s')
          × (s'.current_content ≡ some s.original_content)
          × (any is_pending_hunk s'.hunks ≡ false)
          × (s'.note_uid ≡ s.note_uid)
          × (s'.base_version ≡ s.base_version)
    reject_each-content found p n =
        let (s', found', u, p', all, settled, c) =
          decide_each-content m edit_id Status.rejected sessions s found p n refl in
        let diff = session_diff get_opcodes s' in
        let covers =
          compute_line_diff-covers get_opcodes m 5 s'.original_content s'.proposed_content in
        (
          s',
          found',
          c ∙ ap some (merged-rejected s'.hunks diff 0 p' all ∙ covers.0 ∙ u.original),
          settled,
          u.note_uid,
          u.base_version,
        )
