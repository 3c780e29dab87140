-- ===== src/Ui/Resources.antt =====
-- mcp/toolbridge_mcp/ui/resources.py: the content blocks of a tool's answer.
use toolbridge_api.Prelude.{
  String, ◌≡◌, refl, Bool, true, false, Option, none, some, List, [], ◌∷◌, ◌++◌, if◌then◌else◌,
}
use toolbridge_api.Errors.{Exc, Result, ok, err, ◌>>=◌}
use toolbridge_api.Dict.{Dict, insert}
use toolbridge_api.Notes.Types.{Json}
use toolbridge_api.Ui.Views.{View}

pub data UiFormat : Type 0 where
  html remote_dom both : UiFormat

-- A text, an HTML resource, or a Remote DOM resource with its `uiMetadata` and its `metadata`.
pub data Block : Type 0 where
  text_content : String → Block
  html_resource : String → View → Block
  dom_resource : String → View → Dict Json → Dict Json → Block

-- `ui_format in (UIFormat.HTML, UIFormat.BOTH)`
abbrev pub wants_html : UiFormat → Bool
wants_html UiFormat.html = true
wants_html UiFormat.both = true
wants_html UiFormat.remote_dom = false

-- `ui_format in (UIFormat.REMOTE_DOM, UIFormat.BOTH)`
abbrev pub wants_dom : UiFormat → Bool
wants_dom UiFormat.remote_dom = true
wants_dom UiFormat.both = true
wants_dom UiFormat.html = false

-- `base.update(extra)`, skipped where there is nothing extra
abbrev pub update_dict : Dict Json → Dict Json → Dict Json
update_dict base [] = base
update_dict base ((k, v) ∷ extra) = update_dict (insert k v base) extra

abbrev pub update_optional : Dict Json → Option (Dict Json) → Dict Json
update_optional base none = base
update_optional base (some extra) = update_dict base extra

-- `_build_remote_dom_resource`; the tree stays a view, where the code dumps it as JSON
abbrev pub build_remote_dom_resource :
    String → View → Option (Dict Json) → Option (Dict Json) → Block
build_remote_dom_resource uri dom ui_metadata metadata =
    Block.dom_resource uri dom
      (update_optional (("preferred-frame-size", Json.other true "[\"100%\",\"100%\"]") ∷ [])
        ui_metadata)
      (update_optional (("ai.nanobot.meta/workspace", Json.other true "true") ∷ []) metadata)

-- the blocks that one of the two formats adds
abbrev html_blocks : Bool → String → Option View → Result (List Block)
html_blocks false uri page = ok []
html_blocks true uri none = err (Exc.value_error "html must be provided for ui_format=html/both")
html_blocks true uri (some page) = ok (Block.html_resource uri page ∷ [])

abbrev dom_blocks :
    Bool → String → Option View → Option (Dict Json) → Option (Dict Json) → Result (List Block)
dom_blocks false uri dom ui_metadata metadata = ok []
dom_blocks true uri none ui_metadata metadata =
    err (Exc.value_error "remote_dom must be provided for ui_format=remote-dom/both")
dom_blocks true uri (some dom) ui_metadata metadata =
    ok (build_remote_dom_resource uri dom ui_metadata metadata ∷ [])

unfoldable pub build_ui_with_text_and_dom :
    String
    → Option View
    → Option View
    → String
    → UiFormat
    → Option (Dict Json)
    → Option (Dict Json)
    → Result (List Block)
unfolding insert
build_ui_with_text_and_dom uri page tree text_summary ui_format ui_metadata metadata =
    html_blocks (wants_html ui_format) uri page >>= λ hs.
    dom_blocks (wants_dom ui_format) uri tree ui_metadata metadata >>= λ ds.
    ok (Block.text_content text_summary ∷ (hs ++ ds))

-- A tool renders a format only if it is wanted, `html = … if ui_format in (…)`, and then builds
-- the answer.
unfoldable pub respond :
    String
    → View
    → String
    → UiFormat
    → Option (Dict Json)
    → Option (Dict Json)
    → Result (List Block)
unfolding build_ui_with_text_and_dom
respond uri view text_summary ui_format ui_metadata metadata =
    build_ui_with_text_and_dom uri (if wants_html ui_format then some view else none)
      (if wants_dom ui_format then some view else none) text_summary ui_format ui_metadata metadata

-- The blocks that a format asks for, in their order.
pub expected_blocks :
    String → View → String → UiFormat → Option (Dict Json) → Option (Dict Json) → List Block
expected_blocks uri view text_summary UiFormat.html u m =
    Block.text_content text_summary ∷ Block.html_resource uri view ∷ []
expected_blocks uri view text_summary UiFormat.remote_dom u m =
    Block.text_content text_summary ∷ build_remote_dom_resource uri view u m ∷ []
expected_blocks uri view text_summary UiFormat.both u m =
    Block.text_content text_summary
    ∷ Block.html_resource uri view
    ∷ build_remote_dom_resource uri view u m
    ∷ []

-- An answer is never an error, and has the text first and then the resources of the format.
pub respond_lem :
    (uri : String) (view : View) (text_summary : String) (f : UiFormat) (u m : Option (Dict Json))
    → respond uri view text_summary f u m ≡ ok (expected_blocks uri view text_summary f u m)
unfolding respond expected_blocks
respond_lem uri view text_summary UiFormat.html u m = refl
respond_lem uri view text_summary UiFormat.remote_dom u m = refl
respond_lem uri view text_summary UiFormat.both u m = refl
