-- ===== src/Ui/Dom/Buttons.antt =====
-- mcp/toolbridge_mcp/ui/remote_dom/note_edits.py: the buttons of a proposed edit, beside the hunks of
-- its session.
use mathlib.Core.List.{append_assoc, append-nil}
use toolbridge_api.Prelude.{
  String, ◌≡◌, refl, sym, ap, ap₂, ◌∙◌, inl, inr, Bool, true, false, Option, none, some, List, [],
  ◌∷◌, ◌++◌, map, arith, Bool-cases, ◌==◌, if◌then◌else◌,
}
use toolbridge_api.Dict.{Dict, lookup}
use toolbridge_api.Diff.Types.{Kind, is_unchanged, is_pending}
use toolbridge_api.Diff.Lines.{split_lf}
use toolbridge_api.Sessions.Types.{NoteEditHunkState}
use toolbridge_api.Sessions.Store.{is_pending_hunk}
use toolbridge_api.Ui.Dom.Types.{Value, Node, nodes, Button, buttons, buttons_in}
use toolbridge_api.Ui.Dom.DiffContent.{
  render_diff_line, render_lines, render_nonempty, render_revised, display_proposed, content_lines,
  diff_column, render_diff_content,
}
use toolbridge_api.Ui.Dom.HunkBlock.{
  hunk_params, needs_input, option_nodes, changed_children, action_row, context_block, card,
  render_hunk_block,
}

abbrev pub use_tool : String → Dict Value → Bool → Button
use_tool tool_name params enabled = record {
  action = record { tool_name = tool_name; params = params };
  enabled = enabled;
}

-- the three decisions on a hunk
abbrev pub decisions : String → String → List Button
decisions edit_id hunk_id =
    use_tool "reject_note_edit_hunk" (hunk_params edit_id hunk_id []) true
    ∷ use_tool "revise_note_edit_hunk" (hunk_params edit_id hunk_id needs_input) true
    ∷ use_tool "accept_note_edit_hunk" (hunk_params edit_id hunk_id []) true
    ∷ []

pub buttons_in-append :
    (xs ys : List Node)
    → buttons_in (nodes (xs ++ ys)) ≡ buttons_in (nodes xs) ++ buttons_in (nodes ys)
unfolding buttons
buttons_in-append [] ys = refl
buttons_in-append (x ∷ xs) ys =
    ap (λ r. buttons x ++ r) (buttons_in-append xs ys)
    ∙ sym (append_assoc (buttons x) (buttons_in (nodes xs)) (buttons_in (nodes ys)))

-- nodes without a button
abbrev pub Plain : List Node → Type 0
Plain ns = buttons_in (nodes ns) ≡ []

pub Plain-append : (xs ys : List Node) → Plain xs → Plain ys → Plain (xs ++ ys)
Plain-append xs ys e f = buttons_in-append xs ys ∙ ap₂ (λ r s. r ++ s) e f

pub after-Plain :
    (xs ys : List Node) → Plain xs → buttons_in (nodes (xs ++ ys)) ≡ buttons_in (nodes ys)
after-Plain xs ys e = buttons_in-append xs ys ∙ ap (λ r. r ++ buttons_in (nodes ys)) e

lines-Plain : (b : Bool) (ls : List String) → Plain (map (render_diff_line b) ls)
unfolding buttons
lines-Plain b [] = refl
lines-Plain b (l ∷ ls) = lines-Plain b ls

nonempty-Plain : (b : Bool) (s : String) → Plain (render_nonempty b s)
unfolding buttons
nonempty-Plain b s = elim (Bool-cases (s == "")) [
  | inl e ↦ rw e
  | inr e ↦ rw e (lines-Plain b (split_lf s))
]

revised-Plain : (r : Option String) → Plain (render_revised r)
unfolding buttons
revised-Plain none = refl
revised-Plain (some r) = nonempty-Plain true r

content_lines-Plain :
    (kind : Kind) (original proposed : String) (r : Option String)
    → Plain (content_lines kind original proposed r)
unfolding content_lines buttons
content_lines-Plain Kind.unchanged original proposed r = refl
content_lines-Plain Kind.removed original proposed r =
    Plain-append (render_lines false original) (render_revised r)
      (lines-Plain false (split_lf original)) (revised-Plain r)
content_lines-Plain Kind.added original proposed r =
    lines-Plain true (split_lf (display_proposed proposed r))
content_lines-Plain Kind.modified original proposed r =
    Plain-append (render_nonempty false original)
      (render_nonempty true (display_proposed proposed r)) (nonempty-Plain false original)
      (nonempty-Plain true (display_proposed proposed r))

column-Plain : (xs : List Node) → Plain xs → Plain (option_nodes (diff_column xs))
unfolding buttons
column-Plain [] e = refl
column-Plain (x ∷ xs) e = append-nil (buttons_in (nodes (x ∷ xs))) ∙ e

content-Plain :
    (h : NoteEditHunkState)
    → Plain (option_nodes (render_diff_content h.kind h.original h.proposed h.revised_text))
unfolding render_diff_content
content-Plain h =
    let lines = content_lines h.kind h.original h.proposed h.revised_text in
    column-Plain lines (content_lines-Plain h.kind h.original h.proposed h.revised_text)

context-Plain : (original : String) → Plain (option_nodes (context_block original))
unfolding buttons
context-Plain original = elim (Bool-cases (original == "")) [ inl e ↦ rw e | inr e ↦ rw e ]

action-buttons :
    (pending : Bool) (edit_id hunk_id : String)
    → buttons_in (nodes (if pending then action_row edit_id hunk_id ∷ [] else []))
      ≡ (if pending then decisions edit_id hunk_id else [])
unfolding buttons lookup
action-buttons true edit_id hunk_id = refl
action-buttons false edit_id hunk_id = refl

card-buttons :
    (edit_id : String) (h : NoteEditHunkState)
    → buttons_in (nodes (card edit_id h ∷ []))
      ≡ (if is_pending h.status then decisions edit_id h.id else [])
unfolding buttons
card-buttons edit_id h =
    let children = buttons_in (nodes (changed_children edit_id h)) in
    let actions = if is_pending h.status then action_row edit_id h.id ∷ [] else [] in
    let whole : buttons_in (nodes (card edit_id h ∷ [])) ≡ children =
      append-nil (children ++ []) ∙ append-nil children in
    whole
    ∙ after-Plain (option_nodes (render_diff_content h.kind h.original h.proposed h.revised_text))
        actions (content-Plain h)
    ∙ action-buttons (is_pending h.status) edit_id h.id

-- the buttons of a hunk
abbrev pub own_buttons : String → NoteEditHunkState → List Button
own_buttons edit_id h = if is_pending_hunk h then decisions edit_id h.id else []

is_pending_hunk-changed :
    (h : NoteEditHunkState) → is_unchanged h.kind ≡ false → is_pending h.status ≡ is_pending_hunk h
is_pending_hunk-changed h e = ground (arith, e)

is_pending_hunk-unchanged :
    (h : NoteEditHunkState) → is_unchanged h.kind ≡ true → is_pending_hunk h ≡ false
is_pending_hunk-unchanged h e = ground (arith, e)

pub block-buttons :
    (edit_id : String) (h : NoteEditHunkState)
    → buttons_in (nodes (option_nodes (render_hunk_block edit_id h))) ≡ own_buttons edit_id h
unfolding render_hunk_block
block-buttons edit_id h =
    let shown : Option Node → List Button = λ o. buttons_in (nodes (option_nodes o)) in
    let chosen : Bool → List Button = λ b. if b then decisions edit_id h.id else [] in
    elim (Bool-cases (is_unchanged h.kind)) [
      | inl e ↦
          let block : render_hunk_block edit_id h ≡ context_block h.original =
            rw (e, render_hunk_block) in
          ap shown block
          ∙ context-Plain h.original
          ∙ ap chosen (sym (is_pending_hunk-unchanged h e))
      | inr e ↦
          let block : render_hunk_block edit_id h ≡ some (card edit_id h) =
            rw (e, render_hunk_block) in
          ap shown block ∙ card-buttons edit_id h ∙ ap chosen (is_pending_hunk-changed h e)
    ]
