-- ===== src/Server.antt =====
-- kafkatest/server.go: the mock server that clients are tested with.
pub mod Store
pub mod Handlers
pub mod Offsets
pub mod Serving
pub mod Stored
pub mod Service
pub mod Wired
pub mod Conversation
