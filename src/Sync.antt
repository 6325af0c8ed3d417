-- ===== src/Sync.antt =====
-- sync/: the hybrid logical clock, the changelog server and an offline replica.
pub mod Clock
pub mod Contract
pub mod Target
pub mod Merge
pub mod Replica
pub mod Durable
