-- ===== src/Connection.antt =====
-- connection.go: requests sent over one connection, and their responses.
pub mod Outcome
pub mod Send
pub mod Calls
pub mod Trimmed
pub mod Answers
pub mod Exchanges
