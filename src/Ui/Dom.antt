-- ===== src/Ui/Dom.antt =====
-- mcp/toolbridge_mcp/ui/remote_dom: the trees that a client renders.
pub mod Types
pub mod Design
pub mod DiffContent
pub mod HunkBlock
pub mod NoteEdits
pub mod Lines
pub mod Buttons
pub mod EditButtons
