-- ===== src/Cache.antt =====
-- src/object_store/cache.rs: the byte-range cache in front of an object store.
pub mod Key
pub mod Store
pub mod Fetch
mod Tests
