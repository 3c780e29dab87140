-- ===== src/Sessions/UpdateEach.antt =====
-- One update of the hunks for each identifier.
use toolbridge_api.Prelude.{
  String, ◌≡◌, ◌≢◌, refl, sym, ap, subst, ◌∙◌, inr, false, none, List, [], ◌∷◌, map, arith, ◌==◌,
  eq_iff, eq_refl, any, All,
}
use toolbridge_api.Diff.Types.{Status, is_pending}
use toolbridge_api.Sessions.Types.{NoteEditHunkState}
use toolbridge_api.Sessions.Store.{is_pending_hunk, revision, update_hunk}
use toolbridge_api.Sessions.DecisionMap.{DistinctIds}
use toolbridge_api.Sessions.Merged.{AllStatus}

abbrev pub ids_of : List NoteEditHunkState → List String
ids_of hs = map (λ (h : NoteEditHunkState). h.id) hs

-- the hunks after one update for each identifier
unfoldable pub update_each : Status → List String → List NoteEditHunkState → List NoteEditHunkState
update_each st [] hs = hs
update_each st (id ∷ ids) hs = update_each st ids (update_hunk id st none hs)

update_each-cons :
    (st : Status) (ids : List String) (h : NoteEditHunkState) (hs : List NoteEditHunkState)
    → All (λ (id : String). (h.id == id) ≡ false) ids
    → update_each st ids (h ∷ hs) ≡ h ∷ update_each st ids hs
unfolding update_each update_hunk
update_each-cons st [] h hs a = refl
update_each-cons st (id ∷ ids) h hs (e, a) =
    rw e (update_each-cons st ids h (update_hunk id st none hs) a)

others-differ :
    (h : NoteEditHunkState) (hs : List NoteEditHunkState)
    → All (λ (g : NoteEditHunkState). (g.id == h.id) ≡ false) hs
    → All (λ (id : String). (h.id == id) ≡ false) (ids_of hs)
others-differ h [] a = tt
others-differ h (g ∷ hs) (e, a) =
    (ground (arith, e, eq_iff g.id h.id, eq_iff h.id g.id), others-differ h hs a)

abbrev decided : Status → NoteEditHunkState → NoteEditHunkState
decided st h = record h { status = st; revised_text = revision st none }

update_hunk_self :
    (st : Status) (h : NoteEditHunkState) (hs : List NoteEditHunkState)
    → update_hunk h.id st none (h ∷ hs) ≡ decided st h ∷ hs
unfolding update_hunk
update_hunk_self st h hs = rw (eq_refl h.id)

pub update_each-AllStatus :
    (st : Status) (hs : List NoteEditHunkState)
    → DistinctIds hs
    → AllStatus st (update_each st (ids_of hs) hs)
unfolding update_each
update_each-AllStatus st [] u = tt
update_each-AllStatus st (h ∷ hs) (named, fresh, u) =
    subst (AllStatus st)
      (sym (
        ap (update_each st (ids_of hs)) (update_hunk_self st h hs)
        ∙ update_each-cons st (ids_of hs) (decided st h) hs (others-differ h hs fresh)))
      (inr refl, update_each-AllStatus st hs u)

pub AllStatus-resolved :
    (st : Status) (hs : List NoteEditHunkState)
    → is_pending st ≡ false
    → AllStatus st hs
    → any is_pending_hunk hs ≡ false
AllStatus-resolved st [] e a = refl
AllStatus-resolved st (h ∷ hs) e (a, more) = ground (arith, AllStatus-resolved st hs e more)

pub ids_of-ne-nil : (hs : List NoteEditHunkState) → hs ≢ [] → ids_of hs ≢ []
ids_of-ne-nil [] n e = n refl
ids_of-ne-nil (h ∷ hs) n e = cc
