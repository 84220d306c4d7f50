-- ===== src/Pool.antt =====
-- connection_pool.go: the connections to one broker.
pub mod Backend
pub mod Tracking
pub mod Kept
pub mod Limit
pub mod Shutting
pub mod Addresses
pub mod Initialized
pub mod Removed
