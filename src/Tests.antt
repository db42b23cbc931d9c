-- ===== src/Tests.antt =====
-- Concrete tables, and each property applied to them.
pub mod JobsTests
pub mod SendTests
pub mod GateTests
pub mod DraftTests
pub mod ToyCipher
pub mod ConnectionTests
pub mod ReconnectTests
pub mod AdapterTests
pub mod RuntimeTests
pub mod ListingTests
