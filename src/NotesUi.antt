-- ===== src/NotesUi.antt =====
-- mcp/toolbridge_mcp/tools/notes_ui.py, the tools that show and edit notes.
pub mod Display
pub mod Api
pub mod Texts
pub mod Edit
pub mod Listing
pub mod Apply
pub mod Shown
pub mod ShownLines
pub mod Writes
pub mod Lifecycle
pub mod EndToEnd
pub mod Interleaved
