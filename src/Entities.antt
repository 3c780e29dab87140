-- ===== src/Entities.antt =====
-- The tools of mcp/toolbridge_mcp/tools/tasks.py, comments.py, chats.py and chat_messages.py, over the
-- requests.
pub mod Shapes
pub mod Tasks
pub mod Comments
pub mod Chats
pub mod ChatMessages
pub mod Tool
pub mod Calls
pub mod Answered
pub mod Resources
pub mod Isolation
