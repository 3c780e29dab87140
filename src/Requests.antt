-- ===== src/Requests.antt =====
-- mcp/toolbridge_mcp/utils/requests.py with what it calls: mcp/toolbridge_mcp/auth, utils/session.py
-- and transports/tenant_direct.py of the same folder.
pub mod Types
pub mod Transport
pub mod Exchange
pub mod Tenant
pub mod Calls
pub mod Isolation
pub mod Caching
pub mod Carried
