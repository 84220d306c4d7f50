-- ===== src/Wire.antt =====
-- proto/serialization.go and proto/errors.go: big-endian numbers, the decoder, the encoder.
pub mod BigEndian
pub mod Errors
pub mod Source
pub mod Decoder
pub mod Encoder
pub mod Reads
pub mod Writes
pub mod Limits
