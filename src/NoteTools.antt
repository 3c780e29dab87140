-- ===== src/NoteTools.antt =====
-- The tools of mcp/toolbridge_mcp/tools/notes.py, over the requests.
pub mod Tools
pub mod Payload
pub mod Sent
