-- ===== src/NotesUi/Interleaved/Safety.antt =====
-- mcp/toolbridge_mcp/tools/notes_ui.py: what calls of `apply_note_edit` send while other calls run.
use toolbridge_api.Prelude.{
  ℕ, zero, suc, ◌≡◌, refl, sym, subst, inr, false, some, List, [], ◌∷◌, ◌++◌, All,
}
use toolbridge_api.Diff.Matcher.{Matcher, IsMatcher}
use toolbridge_api.Sessions.Types.{NoteEditSession}
use toolbridge_api.Sessions.Objects.{Heap, object, operate}
use toolbridge_api.Sessions.Objects.Kept.{KeptIn, AllFresh, operate-AllFresh, operate-KeptIn}
use toolbridge_api.NotesUi.Api.{Api}
use toolbridge_api.NotesUi.Interleaved.Runs.{Run, WasReady}
use toolbridge_api.NotesUi.Interleaved.Pieces.{
  CallOk, PieceOk, resume-PieceOk, complete-PieceOk, begin-PieceOk, fetch-CallOk, kept-CallOk,
  set_call-all,
}
use toolbridge_api.NotesUi.Interleaved.{
  Progress, set_call, begin, resume, complete, System, after_fetch, after_update, after_piece, Step,
  Reach,
}

All-mono :
    {A : Type 0} (P Q : A → Type 0) (xs : List A) → ((x : A) → P x → Q x) → All P xs → All Q xs
All-mono P Q [] f a = tt
All-mono P Q (x ∷ xs) f (p, a) = (f x p, All-mono P Q xs f a)

All-last :
    {A : Type 0} (P : A → Type 0) (xs : List A) (x : A) → All P xs → P x → All P (xs ++ (x ∷ []))
All-last P [] x a p = (p, tt)
All-last P (y ∷ xs) x (q, a) p = (q, All-last P xs x a p)

same_objects :
    (objects : List NoteEditSession) (r : ℕ) (x : NoteEditSession)
    → object r objects ≡ some x
    → KeptIn objects r x
same_objects objects r x found = (x, found, refl)

module _ (get_opcodes : Matcher) (m : IsMatcher get_opcodes) (api : Api) where
  record IsSafe (s : System api.State) (run : Run get_opcodes api s) : Type 0 where
    fresh : AllFresh get_opcodes s.heap.objects
    calls : (i : ℕ) → CallOk get_opcodes api s run s.heap.objects (s.calls i)
    log : All (λ u. WasReady get_opcodes api u s run) s.log

  module _ (s t : System api.State) (run : Run get_opcodes api s) (step : Step get_opcodes api s t)
      (safe : IsSafe s run) where
    -- the updates of before stay in order
    log-later : All (λ u. WasReady get_opcodes api u t (Reach.later run step)) s.log
    log-later =
        All-mono (λ u. WasReady get_opcodes api u s run)
          (λ u. WasReady get_opcodes api u t (Reach.later run step)) s.log (λ u w. inr w) safe.log

    -- a call that goes on, and the others, on the same objects
    calls-later :
        (i : ℕ) (p : Progress) (objects : List NoteEditSession)
        → objects ≡ s.heap.objects
        → CallOk get_opcodes api s run s.heap.objects p
        → (j : ℕ) → CallOk get_opcodes api t (Reach.later run step) objects (set_call i p s.calls j)
    calls-later i p objects same c =
        set_call-all (CallOk get_opcodes api t (Reach.later run step) objects) i p s.calls
          (kept p c) (λ j. kept (s.calls j) (safe.calls j))
      where
        kept :
            (q : Progress)
            → CallOk get_opcodes api s run s.heap.objects q
            → CallOk get_opcodes api t (Reach.later run step) objects q
        kept q = kept-CallOk get_opcodes api s t run step s.heap.objects objects q (
            subst
              (λ os.
                (r : ℕ) (x : NoteEditSession) → object r s.heap.objects ≡ some x → KeptIn os r x)
              (sym same) (same_objects s.heap.objects))

  call-is :
      (s : System api.State) (run : Run get_opcodes api s) (i : ℕ) (p : Progress)
      → IsSafe s run
      → s.calls i ≡ p
      → CallOk get_opcodes api s run s.heap.objects p
  call-is s run i p safe e = subst (CallOk get_opcodes api s run s.heap.objects) e (safe.calls i)

  piece-IsSafe :
      (i : ℕ) (piece : Progress × Heap) (s : System api.State) (run : Run get_opcodes api s)
      (step : Step get_opcodes api s (after_piece i piece s))
      → PieceOk get_opcodes api s run piece
      → IsSafe s run
      → IsSafe (after_piece i piece s) (Reach.later run step)
  piece-IsSafe i (p, heap) s run step (c, same) safe = record {
    fresh = subst (AllFresh get_opcodes) (sym same) safe.fresh;
    calls = calls-later s (after_piece i (p, heap) s) run step safe i p heap.objects same c;
    log = log-later s (after_piece i (p, heap) s) run step safe;
  }

  step-IsSafe :
      (s t : System api.State) (run : Run get_opcodes api s) (step : Step get_opcodes api s t)
      → IsSafe s run
      → IsSafe t (Reach.later run step)
  step-IsSafe s _ run (Step.call i edit_id f e) safe =
      piece-IsSafe i (begin edit_id f s.heap, s.heap) s run (Step.call i edit_id f e)
        (begin-PieceOk get_opcodes api s run edit_id f) safe
  step-IsSafe s _ run (Step.fetch i a session e found) safe =
      let t = after_fetch api i a session s in
      let step : Step get_opcodes api s t = Step.fetch i a session e found in
      let r = (api.get_note session.note_uid false s.net).0 in
      record {
        fresh = safe.fresh;
        calls = calls-later s t run step safe i (Progress.fetched a r) s.heap.objects refl (
            fetch-CallOk get_opcodes api s run a session r found refl
              (call-is s run i (Progress.fetching a) safe e));
        log = log-later s t run step safe;
      }
  step-IsSafe s _ run (Step.continue i a r session e found) safe =
      piece-IsSafe i (resume get_opcodes a session r s.heap) s run
        (Step.continue i a r session e found)
        (resume-PieceOk get_opcodes api m s run i a session found
          (safe.fresh a.session session found) r e (call-is s run i (Progress.fetched a r) safe e))
        safe
  step-IsSafe s _ run (Step.update i a u e) safe =
      let t = after_update api i a u s in
      let step : Step get_opcodes api s t = Step.update i a u e in
      record {
        fresh = safe.fresh;
        calls =
            calls-later s t run step safe i (Progress.sent a (api.update_note u s.net).0)
              s.heap.objects refl tt;
        log =
            All-last (λ v. WasReady get_opcodes api v t (Reach.later run step)) s.log u
              (log-later s t run step safe) (inr (call-is s run i (Progress.sending a u) safe e));
      }
  step-IsSafe s _ run (Step.finish i a r session e found) safe =
      piece-IsSafe i (complete a session r s.heap) s run (Step.finish i a r session e found)
        (complete-PieceOk get_opcodes api s run a session r) safe
  step-IsSafe s t run (Step.operation o) safe = record {
    fresh = operate-AllFresh get_opcodes o s.heap safe.fresh;
    calls = λ i.
        kept-CallOk get_opcodes api s t run (Step.operation o) s.heap.objects
          (operate get_opcodes o s.heap).objects (s.calls i) (operate-KeptIn get_opcodes o s.heap)
          (safe.calls i);
    log = log-later s t run (Step.operation o) safe;
  }
  step-IsSafe s t run (Step.outside net) safe = record {
    fresh = safe.fresh;
    calls = λ i.
        kept-CallOk get_opcodes api s t run (Step.outside net) s.heap.objects s.heap.objects
          (s.calls i) (same_objects s.heap.objects) (safe.calls i);
    log = log-later s t run (Step.outside net) safe;
  }

  no_object : (r : ℕ) (s : NoteEditSession) → object r [] ≡ some s → ⊥
  no_object zero s e = absurd cc
  no_object (suc r) s e = absurd cc

  Run-IsSafe : (s : System api.State) (run : Run get_opcodes api s) → IsSafe s run
  Run-IsSafe _ (Reach.start net) = record {
    fresh = λ r s e. absurd (no_object r s e);
    calls = λ i. tt;
    log = tt;
  }
  Run-IsSafe t (Reach.later {s} run step) = step-IsSafe s t run step (Run-IsSafe s run)

  -- For every matcher that keeps its documentation, and however any number of calls of `apply_note_edit`
  -- interleave, with each other, with every operation on the sessions (also on a session that a waiting
  -- call holds) and with whatever else changes the network: for every update that was sent there is a
  -- moment of the same run at which a call has its note, the session that the call holds has no changed
  -- hunk pending and the version of that note, and the update carries the content that the decisions of
  -- this session make at that moment, hunk by hunk. By that moment, the network gave that note for the
  -- session, and by then the identifier of the call named the session.
  pub interleaved-WasReady :
      (s : System api.State) (run : Run get_opcodes api s)
      → All (λ u. WasReady get_opcodes api u s run) s.log
  interleaved-WasReady s run = (Run-IsSafe s run).log
