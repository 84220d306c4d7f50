-- ===== src/Broker.antt =====
-- broker.go: finding the leader of a partition, and the requests of consumers, producers and coordinators.
pub mod Consumer
pub mod Delivery
pub mod Endpoint
pub mod Known
pub mod Leader
pub mod Failover
pub mod Attempts
pub mod Requests
pub mod Producing
pub mod Coordinator
pub mod Counting
pub mod Settling
pub mod Released
pub mod Outcomes
pub mod Numbered
