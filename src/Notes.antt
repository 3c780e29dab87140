-- ===== src/Notes.antt =====
-- mcp/toolbridge_mcp/tools/notes.py, the notes of the REST API and the tools over them.
pub mod Types
