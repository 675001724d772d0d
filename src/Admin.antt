-- ===== src/Admin.antt =====
-- internal/admin: the management interface. A handler answers a request and leaves a runtime.
pub mod Request
pub mod Accounts
pub mod Control
pub mod Auth
pub mod Synced
