-- ===== src/Messages.antt =====
-- proto/messages.go: one module for each message of the protocol.
pub mod Frame
pub mod Duration
pub mod SetField
pub mod Envelope
pub mod MetadataReq
pub mod MetadataResp
pub mod FetchReq
pub mod GroupCoordinatorReq
pub mod GroupCoordinatorResp
pub mod OffsetCommitResp
pub mod OffsetFetchReq
pub mod OffsetFetchResp
pub mod ProduceResp
pub mod OffsetReq
pub mod OffsetResp
pub mod OffsetCommitReq
pub mod FetchResp
pub mod ProduceReq
pub mod RoundTrips
pub mod Counts
