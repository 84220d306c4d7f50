-- ===== src/MessageSet.antt =====
-- The message sets of proto/messages.go and the framed snappy of proto/snappy.go.
pub mod Crc
pub mod Message
pub mod SliceWriter
pub mod Write
pub mod Snappy
pub mod Read
pub mod Fills
pub mod Layout
pub mod WriteLaws
pub mod ReadLaws
pub mod Truncation
pub mod RoundTrip
pub mod Damage
pub mod Termination
