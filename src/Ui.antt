-- ===== src/Ui.antt =====
-- mcp/toolbridge_mcp/ui, the content that a tool returns.
pub mod Views
pub mod Resources
pub mod Dom
pub mod Html
