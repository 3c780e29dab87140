-- ===== src/Ui/Dom/Design.antt =====
-- mcp/toolbridge_mcp/ui/remote_dom/design.py: the helper functions, and the tokens that the trees for
-- note edits use.
use toolbridge_api.Prelude.{
  ℕ, zero, suc, String, Option, none, some, List, [], ◌∷◌, ◌++◌, ◌==◌, nat_eq, not, if◌then◌else◌,
}
use toolbridge_api.Prelude.Text.{str}
use toolbridge_api.Dict.{Dict}
use toolbridge_api.Notes.Types.{Json}
use toolbridge_api.Ui.Dom.Types.{Value, Node, element}

abbrev pub headline_medium : String
headline_medium = "headlineMedium"

abbrev pub title_large : String
title_large = "titleLarge"

abbrev pub body_medium : String
body_medium = "bodyMedium"

abbrev pub body_small : String
body_small = "bodySmall"

abbrev pub gap_xs : ℕ
gap_xs = 4

abbrev pub gap_sm : ℕ
gap_sm = 8

abbrev pub gap_md : ℕ
gap_md = 12

abbrev pub section_gap : ℕ
section_gap = 20

-- a key with a text, where it is there and not empty
abbrev optional_text : String → Option String → Dict Value
optional_text key none = []
optional_text key (some s) = if s == "" then [] else (key, Value.text s) ∷ []

abbrev optional_number : String → Option ℕ → Dict Value
optional_number key none = []
optional_number key (some n) = (key, Value.number n) ∷ []

abbrev pub chip_node : String → String → Option String → Node
chip_node label variant icon =
    element "chip"
      (("label", Value.text label) ∷ ("variant", Value.text variant) ∷ optional_text "icon" icon) []

-- `run_spacing or gap`
abbrev run_spacing_or : ℕ → Option ℕ → ℕ
run_spacing_or gap none = gap
run_spacing_or gap (some zero) = gap
run_spacing_or gap (some (suc n)) = suc n

abbrev pub wrap_node : List Node → ℕ → Option ℕ → Node
wrap_node children gap run_spacing =
    element "wrap"
      (("gap", Value.number gap)
        ∷ ("runSpacing", Value.number (run_spacing_or gap run_spacing))
        ∷ [])
      children

-- all arguments of `text_node`
abbrev pub full_text_node : String → String → Option String → Option ℕ → Option String → Node
full_text_node content style color max_lines overflow =
    element "text"
      (("text", Value.text content)
        ∷ ("style", Value.text style)
        ∷ (optional_text "color" color
            ++ optional_number "maxLines" max_lines
            ++ optional_text "overflow" overflow))
      []

-- `text_node(text, style, color)`
abbrev pub text_node : String → String → Option String → Node
text_node content style color = full_text_node content style color none none

-- the metadata of the chat frame
abbrev max_width_metadata : Option ℕ → Dict Json
max_width_metadata none = []
max_width_metadata (some n) = ("chat.maxWidth", Json.other (not (nat_eq n 0)) (str n)) ∷ []

abbrev pub get_chat_metadata : String → Option ℕ → Dict Json
get_chat_metadata frame_style max_width =
    ("chat.frameStyle", Json.text frame_style) ∷ max_width_metadata max_width
