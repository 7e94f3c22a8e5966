-- ===== src/Radius.antt =====
-- The RADIUS user administration.
pub mod Rows
pub mod Engine
pub mod Queries
pub mod Transaction
pub mod Create
pub mod Sync
pub mod Update
pub mod Attributes
pub mod Subscription
pub mod Tests
