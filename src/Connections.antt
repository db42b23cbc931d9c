-- ===== src/Connections.antt =====
-- packages/core/connections: the accounts that searches read from and sends go out of.
pub mod Row
pub mod Store
pub mod Tokens
pub mod State
pub mod Scopes
pub mod Service
pub mod Rotation
