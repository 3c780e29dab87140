-- ===== src/Sessions/PendingHunks.antt =====
-- mcp/toolbridge_mcp/note_edit_sessions.py: what decisions leave pending.
use toolbridge_api.Prelude.{
  String, ◌≡◌, refl, sym, ap, subst, ◌∙◌, inl, inr, Bool, true, false, not, Option, List, [], ◌∷◌,
  arith, ◌==◌, eq_iff, Bool-cases, filter, filter-kept, filter-dropped, All,
}
use toolbridge_api.Diff.Types.{Status, is_pending}
use toolbridge_api.Sessions.Types.{NoteEditHunkState}
use toolbridge_api.Sessions.Store.{is_pending_hunk, revision, update_hunk}
use toolbridge_api.Sessions.DecisionMap.{DistinctIds}

-- has another identifier
abbrev pub is_other : String → NoteEditHunkState → Bool
is_other id h = not (h.id == id)

pub filter-same :
    {A : Type 0} (p : A → Bool) (xs : List A) → All (λ x. p x ≡ true) xs → filter p xs ≡ xs
filter-same p [] a = refl
filter-same p (x ∷ xs) (e, a) = filter-kept p x xs e ∙ ap (λ ys. x ∷ ys) (filter-same p xs a)

pub filter-All :
    {A : Type 0} (P : A → Type 0) (p : A → Bool) (xs : List A) → All P xs → All P (filter p xs)
filter-All P p [] a = tt
filter-All P p (x ∷ xs) (h, a) = elim (Bool-cases (p x)) [
  | inl e ↦ subst (All P) (sym (filter-kept p x xs e)) (h, filter-All P p xs a)
  | inr e ↦ subst (All P) (sym (filter-dropped p x xs e)) (filter-All P p xs a)
]

pub others-kept :
    (id : String) (hs : List NoteEditHunkState)
    → All (λ (g : NoteEditHunkState). (g.id == id) ≡ false) hs
    → All (λ (g : NoteEditHunkState). is_other id g ≡ true) hs
others-kept id [] a = tt
others-kept id (h ∷ hs) (e, a) = (rw e, others-kept id hs a)

module _ (id : String) (st : Status) (text : Option String) (decides : is_pending st ≡ false) where
  -- A decision takes its hunk from the pending ones, and no other.
  pub filter-update_hunk :
      (hs : List NoteEditHunkState)
      → DistinctIds hs
      → filter is_pending_hunk (update_hunk id st text hs)
        ≡ filter (is_other id) (filter is_pending_hunk hs)
  unfolding update_hunk
  filter-update_hunk [] u = refl
  filter-update_hunk (h ∷ hs) (named, fresh, u) =
      let rest = filter is_pending_hunk hs in
      elim (Bool-cases (h.id == id)) [
        | inl e ↦
            let g : NoteEditHunkState = record h { status = st; revised_text = revision st text } in
            let same : update_hunk id st text (h ∷ hs) ≡ g ∷ hs = rw (e, update_hunk) in
            let settled : is_pending_hunk g ≡ false = ground (arith, decides) in
            let fresh_id : All (λ (x : NoteEditHunkState). (x.id == id) ≡ false) hs =
              subst (λ k. All (λ (x : NoteEditHunkState). (x.id == k) ≡ false) hs)
                ((eq_iff h.id id).0 e) fresh in
            let kept : filter (is_other id) rest ≡ rest = filter-same (is_other id) rest (
              filter-All (λ (x : NoteEditHunkState). is_other id x ≡ true) is_pending_hunk hs
                (others-kept id hs fresh_id)) in
            let gone : is_other id h ≡ false = rw e in
            ap (filter is_pending_hunk) same
            ∙ filter-dropped is_pending_hunk g hs settled
            ∙ sym (elim (Bool-cases (is_pending_hunk h)) [
              | inl p ↦
                  ap (filter (is_other id)) (filter-kept is_pending_hunk h hs p)
                  ∙ filter-dropped (is_other id) h rest gone
                  ∙ kept
              | inr p ↦ ap (filter (is_other id)) (filter-dropped is_pending_hunk h hs p) ∙ kept
            ])
        | inr e ↦
            let more = update_hunk id st text hs in
            let same : update_hunk id st text (h ∷ hs) ≡ h ∷ more = rw (e, update_hunk) in
            let stays : is_other id h ≡ true = rw e in
            ap (filter is_pending_hunk) same ∙ (elim (Bool-cases (is_pending_hunk h)) [
              | inl p ↦
                  filter-kept is_pending_hunk h more p
                  ∙ ap (λ ys. h ∷ ys) (filter-update_hunk hs u)
                  ∙ sym (
                      ap (filter (is_other id)) (filter-kept is_pending_hunk h hs p)
                      ∙ filter-kept (is_other id) h rest stays)
              | inr p ↦
                  filter-dropped is_pending_hunk h more p
                  ∙ filter-update_hunk hs u
                  ∙ sym (ap (filter (is_other id)) (filter-dropped is_pending_hunk h hs p))
            ])
      ]
