-- ===== src/Cluster.antt =====
-- cluster.go: what the client knows of the cluster, and how it is refreshed.
pub mod Metadata
pub mod Lookup
pub mod Refresh
pub mod Epoch
pub mod Since
pub mod Pools
pub mod Caches
pub mod Kept
