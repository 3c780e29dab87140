-- ===== src/Ui/Html.antt =====
-- mcp/toolbridge_mcp/ui/templates: pages for a client that shows HTML.
pub mod CardTags
pub mod DiffScript
pub mod DiffStyle
pub mod Escape
pub mod HunkBlock
pub mod NoteEdits
pub mod PageParts
pub mod PageTags
pub mod ResultStyles
pub mod Tags
