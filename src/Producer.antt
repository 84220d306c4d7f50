-- ===== src/Producer.antt =====
-- distributing_producer.go: the producer that goes round the partitions of a topic and suspends those
-- that fail.
pub mod Line
pub mod Manager
pub mod Distribute
pub mod Balanced
pub mod Handing
pub mod Turns
pub mod RoundRobin
pub mod Calls
