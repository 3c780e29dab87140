-- ===== src/Tests/Fixtures.antt =====
-- A matcher that keeps its documentation, a note, an edit session of it, and an API that keeps one
-- note, to run mcp/toolbridge_mcp on.
use toolbridge_api.Prelude.{
  ℕ, suc, ◌+◌, ◌-◌, subst, ◌≤◌, true, false, String, ◌≡◌, refl, inl, inr, Bool, Option, none, some,
  List, [], ◌∷◌, arith, ◌==◌, eq_iff, nat_eq, length, take, slice, Bool-cases, if◌then◌else◌,
}
use toolbridge_api.Errors.{Exc, Result, ok, err}
use toolbridge_api.Dict.{insert}
use toolbridge_api.Diff.Types.{Kind, Status}
use toolbridge_api.Diff.Matcher.{Tag, Matcher, IsMatcher}
use toolbridge_api.Notes.Types.{Json, Note}
use toolbridge_api.Sessions.Types.{NoteEditHunkState, NoteEditSession, Sessions}
use toolbridge_api.NotesUi.Api.{Update, Api}

-- how many lines at the start are equal
abbrev pub common : List String → List String → ℕ
common [] b = 0
common (x ∷ a) [] = 0
common (x ∷ a) (y ∷ b) = let n = common a b in if x == y then suc n else 0

-- The equal lines at the start, and the rest replaced.
abbrev pub prefix_matcher : Matcher
prefix_matcher a b =
    record { tag = Tag.equal; i1 = 0; i2 = common a b; j1 = 0; j2 = common a b }
    ∷ record { tag = Tag.replace; i1 = common a b; i2 = length a; j1 = common a b; j2 = length b }
    ∷ []

common-le : (a b : List String) → (common a b ≤ length a) × (common a b ≤ length b)
common-le [] b = (omega arith, omega arith)
common-le (x ∷ a) [] = (omega arith, omega arith)
common-le (x ∷ a) (y ∷ b) = ground (arith, common-le a b)

take-common : (a b : List String) → take (common a b) a ≡ take (common a b) b
take-common [] [] = refl
take-common [] (y ∷ b) = refl
take-common (x ∷ a) [] = refl
take-common (x ∷ a) (y ∷ b) = elim (Bool-cases (x == y)) [
  | inl e ↦ rw (e, (eq_iff x y).0 e, take-common a b)
  | inr e ↦ rw e
]

slice-common : (a b : List String) → slice 0 (common a b) a ≡ slice 0 (common a b) b
slice-common a b =
    let e : common a b ≡ common a b - 0 = omega arith in
    subst (λ n. take n a ≡ take n b) e (take-common a b)

pub prefix_matcher-IsMatcher : IsMatcher prefix_matcher
prefix_matcher-IsMatcher = record {
  covers = λ a b. (
    refl,
    refl,
    omega arith,
    omega arith,
    slice-common a b,
    (refl, refl, (common-le a b).0, (common-le a b).1, tt, (refl, refl)),
  );
}

abbrev pub old_text : String
old_text = "a\nb"

abbrev pub new_text : String
new_text = "a\nc"

abbrev pub sample_note : Note
sample_note = record {
  uid = "n1";
  version = 4;
  updated_at = "2025-01-01T00:00:00Z";
  deleted_at = none;
  payload =
      ("title", Json.text " Plan ") ∷ ("content", Json.text old_text) ∷ ("tag", Json.text "x") ∷ [];
}

abbrev pub same_line : Status → NoteEditHunkState
same_line st = record {
  id = "h1";
  kind = Kind.unchanged;
  original = "a\n";
  proposed = "a\n";
  status = st;
  revised_text = none;
  orig_start = some 1;
  orig_end = some 1;
  new_start = some 1;
  new_end = some 1;
}

abbrev pub changed_line : Status → NoteEditHunkState
changed_line st = record {
  id = "h2";
  kind = Kind.modified;
  original = "b";
  proposed = "c";
  status = st;
  revised_text = none;
  orig_start = some 2;
  orig_end = some 2;
  new_start = some 2;
  new_end = some 2;
}

-- a session of the note, with the status of its changed hunk and its content
abbrev pub session_with : Status → Option String → NoteEditSession
session_with st content = record {
  id = "e1";
  note_uid = "n1";
  base_version = 4;
  title = "Plan";
  original_content = old_text;
  proposed_content = new_text;
  summary = none;
  created_at = 10;
  created_by = some "u1";
  hunks = same_line Status.accepted ∷ changed_line st ∷ [];
  current_content = content;
}

abbrev pub open_session : NoteEditSession
open_session = session_with Status.pending none

abbrev pub one_session : Sessions
one_session = ("e1", open_session) ∷ []

-- An API over one note, which checks the version that an update expects.
abbrev pub one_note_api : Api
one_note_api = record {
  State = Note;
  get_note = λ uid include_deleted n.
      if uid == n.uid
      then (ok n, n)
      else (err (Exc.http_status_error 404 "not found" "Client error"), n);
  update_note = λ (u : Update) (n : Note). updated_note (expected u.if_match n.version) u n;
}
  where
    expected : Option ℕ → ℕ → Bool
    expected none v = true
    expected (some w) v = nat_eq v w

    updated_note : Bool → Update → Note → Result Note × Note
    updated_note false u n = (err (Exc.http_status_error 412 "version mismatch" "Client error"), n)
    updated_note true u n =
        let m : Note = record n {
          version = n.version + 1;
          payload = insert "content" (Json.text u.content) n.payload;
        } in
        (ok m, m)
