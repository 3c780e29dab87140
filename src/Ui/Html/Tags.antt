-- ===== src/Ui/Html/Tags.antt =====
-- mcp/toolbridge_mcp/ui/templates/note_edits.py: the tags of a hunk's card.
use Prim.Native.String.{◌++◌ as ◌<>◌}
use toolbridge_api.Prelude.{
  ℕ, ◌+◌, ◌*◌, String, ◌≡◌, refl, inl, inr, Bool, true, false, Option, none, some, List, [], ◌∷◌,
  ◌++◌, map, arith, nat_eq, ◌==◌, Bool-cases, length, length-append,
}
use toolbridge_api.Prelude.Text.{join, str}
use toolbridge_api.Diff.Types.{Kind, Status}
use toolbridge_api.Diff.Lines.{split_lf}
use toolbridge_api.Sessions.Types.{NoteEditHunkState}
use toolbridge_api.Ui.Dom.Types.{Node}
use toolbridge_api.Ui.Dom.DiffContent.{
  render_diff_line, render_lines, render_nonempty, render_revised, display_proposed, content_lines,
}
use toolbridge_api.Ui.Dom.HunkBlock.{kind_label, range_text, line_info, header_text}
use toolbridge_api.Ui.Html.Escape.{escape, opened, opened-append, opened-escape, opened-str}
use toolbridge_api.Ui.Html.HunkBlock.{
  line_html, join_lines, lines_html, nonempty_html, revised_html, render_diff_content_html,
  status_name,
}

abbrev pub sum_opened : List String → ℕ
sum_opened [] = 0
sum_opened (s ∷ ss) = opened s + sum_opened ss

pub opened-join : (ss : List String) → opened (join ss) ≡ sum_opened ss
unfolding opened
opened-join [] = refl
opened-join (s ∷ ss) = omega (arith, opened-append s (join ss), opened-join ss)

-- twice the number of lines that the Remote DOM shows
abbrev pub twice : List Node → ℕ
twice ns = 2 * length ns

line-opened : (b : Bool) (line : String) → opened (line_html b line) ≡ 2
unfolding opened
line-opened true line = omega (
  arith,
  opened-append "<div class=\"diff-line added\">+ " (escape line <> "</div>"),
  opened-append (escape line) "</div>",
  opened-escape line,
)
line-opened false line = omega (
  arith,
  opened-append "<div class=\"diff-line removed\">- " (escape line <> "</div>"),
  opened-append (escape line) "</div>",
  opened-escape line,
)

lines-opened :
    (b : Bool) (ls : List String) → opened (join_lines b ls) ≡ twice (map (render_diff_line b) ls)
unfolding opened
lines-opened b [] = refl
lines-opened b (l ∷ ls) =
    omega
      (arith, opened-append (line_html b l) (join_lines b ls), line-opened b l, lines-opened b ls)

nonempty-opened : (b : Bool) (s : String) → opened (nonempty_html b s) ≡ twice (render_nonempty b s)
unfolding opened
nonempty-opened b s = elim (Bool-cases (s == "")) [
  | inl e ↦ rw e
  | inr e ↦ rw e (lines-opened b (split_lf s))
]

revised-opened : (r : Option String) → opened (revised_html r) ≡ twice (render_revised r)
unfolding opened
revised-opened none = refl
revised-opened (some r) = nonempty-opened true r

append-opened :
    (s t : String) (xs ys : List Node)
    → opened s ≡ twice xs
    → opened t ≡ twice ys
    → opened (s <> t) ≡ twice (xs ++ ys)
append-opened s t xs ys e f = omega (arith, opened-append s t, length-append xs ys, e, f)

pub content-opened :
    (kind : Kind) (original proposed : String) (r : Option String)
    → opened (render_diff_content_html kind original proposed r)
      ≡ twice (content_lines kind original proposed r)
unfolding render_diff_content_html content_lines opened
content-opened Kind.unchanged original proposed r = refl
content-opened Kind.removed original proposed r =
    append-opened (lines_html false original) (revised_html r) (render_lines false original)
      (render_revised r) (lines-opened false (split_lf original)) (revised-opened r)
content-opened Kind.added original proposed r =
    lines-opened true (split_lf (display_proposed proposed r))
content-opened Kind.modified original proposed r =
    append-opened (nonempty_html false original) (nonempty_html true (display_proposed proposed r))
      (render_nonempty false original) (render_nonempty true (display_proposed proposed r))
      (nonempty-opened false original) (nonempty-opened true (display_proposed proposed r))

kind-opened : (k : Kind) → opened (kind_label k) ≡ 0
unfolding opened
kind-opened Kind.unchanged = refl
kind-opened Kind.added = refl
kind-opened Kind.removed = refl
kind-opened Kind.modified = refl

pub status-opened : (st : Status) → opened (status_name st) ≡ 0
unfolding opened
status-opened Status.pending = refl
status-opened Status.accepted = refl
status-opened Status.rejected = refl
status-opened Status.revised = refl

range-opened : (m n : ℕ) → opened (range_text m n) ≡ 0
unfolding opened
range-opened m n = elim (Bool-cases (nat_eq m n)) [
  | inl e ↦ rw e (omega (arith, opened-append "line " (str m), opened-str m))
  | inr e ↦ rw e (
      omega (
        arith,
        opened-append "lines " (str m <> ("-" <> str n)),
        opened-append (str m) ("-" <> str n),
        opened-append "-" (str n),
        opened-str m,
        opened-str n,
      ))
]

info-opened : (os oe ns ne : Option ℕ) → opened (line_info os oe ns ne) ≡ 0
unfolding opened
info-opened (some m) (some n) ns ne = range-opened m n
info-opened (some m) none (some k) (some l) = range-opened k l
info-opened (some m) none (some k) none = refl
info-opened (some m) none none ne = refl
info-opened none oe (some k) (some l) = range-opened k l
info-opened none oe (some k) none = refl
info-opened none oe none ne = refl

pub header-opened : (h : NoteEditHunkState) → opened (header_text h) ≡ 0
unfolding opened
header-opened h =
    let info = line_info h.orig_start h.orig_end h.new_start h.new_end in
    elim (Bool-cases (info == "")) [
      | inl e ↦ rw e (kind-opened h.kind)
      | inr e ↦ rw e (
          omega (
            arith,
            opened-append (kind_label h.kind) (" (" <> (info <> ")")),
            opened-append " (" (info <> ")"),
            opened-append info ")",
            kind-opened h.kind,
            info-opened h.orig_start h.orig_end h.new_start h.new_end,
          ))
    ]
