-- ===== src/NoteTools/Payload.antt =====
-- The body that an applied edit sends: the merged content in the note as it is.
use toolbridge_api.Prelude.{
  String, ◌≡◌, refl, sym, ap, ◌∙◌, inl, inr, Bool, false, ◌||◌, Option, none, some, [], ◌∷◌, ◌==◌,
  eq_iff, arith, Bool-cases, if◌then◌else◌,
}
use toolbridge_api.Errors.{Result, ok}
use toolbridge_api.Dict.{Dict, lookup, insert, lookup-insert, NodupKeys}
use toolbridge_api.Notes.Types.{Json, Note}
use toolbridge_api.Ui.Resources.{update_dict}
use toolbridge_api.Sessions.Types.{NoteEditSession}
use toolbridge_api.NotesUi.Texts.{value_or_empty, other_fields, fields_or_none, update_of}
use toolbridge_api.NoteTools.Tools.{update_payload, given}

-- the first value that is there
abbrev pub or_else {ℓ} : {A : Type ℓ} → Option A → Option A → Option A
or_else (some a) o = some a
or_else none o = o

lookup-update_dict :
    (k : String) (base extra : Dict Json)
    → NodupKeys extra
    → lookup k (update_dict base extra) ≡ or_else (lookup k extra) (lookup k base)
unfolding lookup
lookup-update_dict k base [] u = refl
lookup-update_dict k base ((j, v) ∷ extra) (fresh, u) = elim (Bool-cases (j == k)) [
  | inl e ↦
      let gone : lookup k extra ≡ none =
        ap (λ i. lookup i extra) (sym ((eq_iff j k).0 e)) ∙ fresh in
      lookup-update_dict k (insert j v base) extra u ∙ rw (gone, lookup-insert j k v base, e)
  | inr e ↦ lookup-update_dict k (insert j v base) extra u ∙ rw (lookup-insert j k v base, e)
]

-- a key that the update sets by itself
abbrev pub is_own : String → Bool
is_own k = k == "title" || k == "content"

lookup-other_fields :
    (k : String) (d : Dict Json)
    → lookup k (other_fields d) ≡ (if is_own k then none else lookup k d)
unfolding lookup
lookup-other_fields k [] = ground arith
lookup-other_fields k ((j, v) ∷ d) =
    ground (arith, eq_iff j k, lookup-other_fields k d, lookup-other_fields j d)

other_fields-NodupKeys : (d : Dict Json) → NodupKeys d → NodupKeys (other_fields d)
other_fields-NodupKeys [] u = tt
other_fields-NodupKeys ((j, v) ∷ d) (fresh, u) = elim (Bool-cases (is_own j)) [
  | inl e ↦ rw (e, NodupKeys) (other_fields-NodupKeys d u)
  | inr e ↦ rw (e, NodupKeys) (lookup-other_fields j d ∙ rw e fresh, other_fields-NodupKeys d u)
]

abbrev pub set_uid : String → NoteEditSession → Option Json
set_uid k s = if k == "uid" then some (Json.text s.note_uid) else none

-- what an applied edit sends under a key
abbrev pub expected : NoteEditSession → Note → String → String → Option Json
expected s current content k =
    if k == "title"
    then some (value_or_empty (lookup "title" current.payload))
    else if k == "content"
    then some (Json.text content)
    else or_else (lookup k current.payload) (set_uid k s)

-- the body before the other fields
abbrev own_fields : NoteEditSession → Note → String → Dict Json
own_fields s current content =
    ("uid", Json.text s.note_uid)
    ∷ ("title", value_or_empty (lookup "title" current.payload))
    ∷ ("content", Json.text content)
    ∷ []

literal_sym : (a k : String) → (k == a) ≡ false → (a == k) ≡ false
literal_sym a k e = ground (arith, e, eq_iff a k, eq_iff k a)

-- The three fields with an optional value over them, by the key.
three_fields :
    (k : String) (a b c : Json) (o : Option Json)
    → or_else
        (if is_own k then none else o)
        (lookup k (("uid", a) ∷ ("title", b) ∷ ("content", c) ∷ []))
      ≡ (if k == "title"
          then some b
          else if k == "content"
          then some c
          else or_else o (if k == "uid" then some a else none))
unfolding lookup
three_fields k a b c o = elim (Bool-cases (k == "title")) [
  | inl e ↦ rw ((eq_iff k "title").0 e) refl
  | inr e ↦ elim (Bool-cases (k == "content")) [
    | inl f ↦ rw ((eq_iff k "content").0 f) refl
    | inr f ↦ elim (Bool-cases (k == "uid")) [
      | inl g ↦ rw ((eq_iff k "uid").0 g) refl
      | inr g ↦
          rw (e, f, g, literal_sym "title" k e, literal_sym "content" k f, literal_sym "uid" k g)
            refl
    ]
  ]
]

lookup-own_fields :
    (s : NoteEditSession) (current : Note) (content k : String)
    → or_else (lookup k (other_fields current.payload)) (lookup k (own_fields s current content))
      ≡ expected s current content k
lookup-own_fields s current content k =
    ap (λ o. or_else o (lookup k (own_fields s current content)))
      (lookup-other_fields k current.payload)
    ∙ three_fields k (Json.text s.note_uid) (value_or_empty (lookup "title" current.payload))
        (Json.text content) (lookup k current.payload)

module _ (loads : String → Result (Dict Json)) (loads_value : String → Result Json) where
  payload-fields :
      (s : NoteEditSession) (current : Note) (content : String) (fields : Dict Json)
      → update_payload loads loads_value s.note_uid
          (value_or_empty (lookup "title" current.payload))
          content
          (given (fields_or_none fields))
        ≡ ok (update_dict (own_fields s current content) fields)
  unfolding update_payload
  payload-fields s current content [] = refl
  payload-fields s current content (x ∷ fields) = refl

  -- The body of the update that an applied edit sends, for a payload with no key twice: the merged
  -- content, the title of the note as it is now, and every other field of the note as it is now; a
  -- `uid` in the payload goes before the one of the session.
  pub update_of-payload :
      (s : NoteEditSession) (current : Note) (content : String)
      → NodupKeys current.payload
      → let u = update_of s current content in
        (p : Dict Json) × (update_payload loads loads_value u.uid u.title u.content
            (given u.additional_fields)
          ≡ ok p)
        × ((k : String) → lookup k p ≡ expected s current content k)
  update_of-payload s current content u =
      let fields = other_fields current.payload in
      (
        update_dict (own_fields s current content) fields,
        payload-fields s current content fields,
        λ k.
            lookup-update_dict k (own_fields s current content) fields
              (other_fields-NodupKeys current.payload u)
            ∙ lookup-own_fields s current content k,
      )
