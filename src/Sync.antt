-- ===== src/Sync.antt =====
-- src/frontend/flight/sync: replication of row changes into Delta tables.
pub mod Writer
pub mod Schema
pub mod Squash
pub mod Prune
mod Tests
