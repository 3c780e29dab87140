-- ===== src/Ui/Dom/Lines.antt =====
-- mcp/toolbridge_mcp/ui/remote_dom/note_edits.py: reading the lines of a hunk's card back.
use Prim.Native.String.{◌++◌ as ◌<>◌}
use text.Mathlib.TextLemmas.{cons-append}
use mathlib.Core.List.{append_assoc, append-nil}
use toolbridge_api.Prelude.{
  String, ◌≡◌, refl, sym, ap, ◌∙◌, inl, inr, Bool, true, false, not, Option, none, some, List, [],
  ◌∷◌, ◌++◌, map, ◌==◌, eq_iff, Bool-cases, Option-cases,
}
use toolbridge_api.Prelude.Text.{join_with, strip_prefix, strip_prefix-append}
use toolbridge_api.Dict.{lookup}
use toolbridge_api.Diff.Types.{Kind, is_unchanged}
use toolbridge_api.Diff.Lines.{split_lf}
use toolbridge_api.Diff.Lines.Split.{join_with-split_lf}
use toolbridge_api.Ui.Dom.Types.{Node, nodes, texts, texts_in}
use toolbridge_api.Ui.Dom.DiffContent.{
  line_prefix, render_diff_line, render_lines, render_nonempty, display_proposed, content_lines,
  diff_column, render_diff_content,
}

-- the lines that begin with the prefix, without it
abbrev pub with_prefix : String → List String → List String
with_prefix p [] = []
with_prefix p (s ∷ ss) =
    let rest = with_prefix p ss in elim (strip_prefix p s) [ none ↦ rest | some t ↦ t ∷ rest ]

abbrev pub content_texts : Option Node → List String
content_texts none = []
content_texts (some n) = texts n

-- what the card shows as the text before the edit, and after it
abbrev pub text_before : Kind → String → String
text_before Kind.added original = ""
text_before _ original = original

abbrev pub text_after : Kind → String → Option String → String
text_after Kind.removed proposed none = ""
text_after _ proposed none = proposed
text_after _ proposed (some revised_text) = revised_text

with_prefix-append :
    (p : String) (xs ys : List String)
    → with_prefix p (xs ++ ys) ≡ with_prefix p xs ++ with_prefix p ys
with_prefix-append p [] ys = refl
with_prefix-append p (x ∷ xs) ys = elim (Option-cases (strip_prefix p x)) [
  | inl e ↦ rw (e, with_prefix) (with_prefix-append p xs ys)
  | inr (t, e) ↦ rw (e, with_prefix) (ap (λ r. t ∷ r) (with_prefix-append p xs ys))
]

texts_in-append :
    (xs ys : List Node) → texts_in (nodes (xs ++ ys)) ≡ texts_in (nodes xs) ++ texts_in (nodes ys)
unfolding texts
texts_in-append [] ys = refl
texts_in-append (x ∷ xs) ys =
    ap (λ r. texts x ++ r) (texts_in-append xs ys)
    ∙ sym (append_assoc (texts x) (texts_in (nodes xs)) (texts_in (nodes ys)))

-- the lines with the prefix that a list of nodes shows
abbrev shown : Bool → List Node → List String
shown b ns = with_prefix (line_prefix b) (texts_in (nodes ns))

shown-append : (b : Bool) (xs ys : List Node) → shown b (xs ++ ys) ≡ shown b xs ++ shown b ys
shown-append b xs ys =
    ap (with_prefix (line_prefix b)) (texts_in-append xs ys)
    ∙ with_prefix-append (line_prefix b) (texts_in (nodes xs)) (texts_in (nodes ys))

other_prefix :
    (b : Bool) (l : String) → strip_prefix (line_prefix (not b)) (line_prefix b <> l) ≡ none
other_prefix true l = rw cons-append
other_prefix false l = rw cons-append

-- the texts of the lines, with their prefix
prefixed : Bool → List String → List String
prefixed b [] = []
prefixed b (l ∷ ls) = (line_prefix b <> l) ∷ prefixed b ls

texts_in-lines :
    (b : Bool) (ls : List String) → texts_in (nodes (map (render_diff_line b) ls)) ≡ prefixed b ls
unfolding texts lookup prefixed
texts_in-lines b [] = refl
texts_in-lines b (l ∷ ls) = ap (λ r. (line_prefix b <> l) ∷ r) (texts_in-lines b ls)

prefixed-same : (b : Bool) (ls : List String) → with_prefix (line_prefix b) (prefixed b ls) ≡ ls
unfolding prefixed
prefixed-same b [] = refl
prefixed-same b (l ∷ ls) =
    rw (strip_prefix-append (line_prefix b) l, with_prefix) (ap (λ r. l ∷ r) (prefixed-same b ls))

prefixed-other :
    (b : Bool) (ls : List String) → with_prefix (line_prefix (not b)) (prefixed b ls) ≡ []
unfolding prefixed
prefixed-other b [] = refl
prefixed-other b (l ∷ ls) = rw (other_prefix b l, with_prefix) (prefixed-other b ls)

shown-lines : (b : Bool) (s : String) → join_with "\n" (shown b (render_lines b s)) ≡ s
shown-lines b s =
    ap (join_with "\n") (
      ap (with_prefix (line_prefix b)) (texts_in-lines b (split_lf s))
      ∙ prefixed-same b (split_lf s))
    ∙ join_with-split_lf s

shown-other : (b : Bool) (s : String) → shown (not b) (render_lines b s) ≡ []
shown-other b s =
    ap (with_prefix (line_prefix (not b))) (texts_in-lines b (split_lf s))
    ∙ prefixed-other b (split_lf s)

shown-nonempty : (b : Bool) (s : String) → join_with "\n" (shown b (render_nonempty b s)) ≡ s
unfolding texts
shown-nonempty b s = elim (Bool-cases (s == "")) [
  | inl e ↦ rw e (sym ((eq_iff s "").0 e))
  | inr e ↦ rw e (shown-lines b s)
]

shown-nonempty_other : (b : Bool) (s : String) → shown (not b) (render_nonempty b s) ≡ []
unfolding texts
shown-nonempty_other b s = elim (Bool-cases (s == "")) [
  | inl e ↦ rw e
  | inr e ↦ rw e (shown-other b s)
]

-- removed lines and then added ones
both_shown :
    (xs ys : List Node)
    → shown true xs ≡ []
    → shown false ys ≡ []
    → (shown false (xs ++ ys) ≡ shown false xs) × (shown true (xs ++ ys) ≡ shown true ys)
both_shown xs ys e f = (
  shown-append false xs ys ∙ ap (λ r. shown false xs ++ r) f ∙ append-nil (shown false xs),
  shown-append true xs ys ∙ ap (λ r. r ++ shown true ys) e,
)

content_texts-column : (xs : List Node) → content_texts (diff_column xs) ≡ texts_in (nodes xs)
unfolding texts lookup
content_texts-column [] = refl
content_texts-column (x ∷ xs) = refl

shown_replacement :
    (proposed : String) (r : Option String)
    → display_proposed proposed r ≡ text_after Kind.modified proposed r
shown_replacement proposed none = refl
shown_replacement proposed (some r) = refl

content_lines-shown :
    (kind : Kind) (original proposed : String) (revised_text : Option String)
    → is_unchanged kind ≡ false
    → let lines = content_lines kind original proposed revised_text in
      (join_with "\n" (shown false lines) ≡ text_before kind original)
      × (join_with "\n" (shown true lines) ≡ text_after kind proposed revised_text)
unfolding content_lines texts
content_lines-shown Kind.unchanged original proposed r e = absurd cc
content_lines-shown Kind.added original proposed none e =
    (ap (join_with "\n") (shown-other true proposed), shown-lines true proposed)
content_lines-shown Kind.added original proposed (some r) e =
    (ap (join_with "\n") (shown-other true r), shown-lines true r)
content_lines-shown Kind.removed original proposed none e =
    let parts = both_shown (render_lines false original) [] (shown-other false original) refl in
    (ap (join_with "\n") parts.0 ∙ shown-lines false original, ap (join_with "\n") parts.1)
content_lines-shown Kind.removed original proposed (some r) e =
    let parts =
      both_shown (render_lines false original) (render_nonempty true r) (shown-other false original)
        (shown-nonempty_other true r) in
    (
      ap (join_with "\n") parts.0 ∙ shown-lines false original,
      ap (join_with "\n") parts.1 ∙ shown-nonempty true r,
    )
content_lines-shown Kind.modified original proposed r e =
    let new_text = display_proposed proposed r in
    let parts =
      both_shown (render_nonempty false original) (render_nonempty true new_text)
        (shown-nonempty_other false original) (shown-nonempty_other true new_text) in
    (
      ap (join_with "\n") parts.0 ∙ shown-nonempty false original,
      ap (join_with "\n") parts.1 ∙ shown-nonempty true new_text ∙ shown_replacement proposed r,
    )

-- What a card shows of a changed hunk can be read back: the lines with "- " are the text before the
-- edit, and the lines with "+ " the text after it, whatever prefix the lines of the texts begin with.
pub render_diff_content-reads :
    (kind : Kind) (original proposed : String) (revised_text : Option String)
    → is_unchanged kind ≡ false
    → let lines = content_texts (render_diff_content kind original proposed revised_text) in
      (join_with "\n" (with_prefix "- " lines) ≡ text_before kind original)
      × (join_with "\n" (with_prefix "+ " lines) ≡ text_after kind proposed revised_text)
unfolding render_diff_content
render_diff_content-reads kind original proposed revised_text e =
    let column = content_texts-column (content_lines kind original proposed revised_text) in
    let (before, after) = content_lines-shown kind original proposed revised_text e in
    (
      ap (λ ls. join_with "\n" (with_prefix "- " ls)) column ∙ before,
      ap (λ ls. join_with "\n" (with_prefix "+ " ls)) column ∙ after,
    )
