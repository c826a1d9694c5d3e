-- ===== src/Store.antt =====
-- internal/cloudinfo/store.go: the store that every other part reads and writes.
pub mod Key
pub mod Interface
pub mod Cache
pub mod KeyValue
pub mod GoCache
pub mod Redis
pub mod Cassandra
pub mod Choice
mod Tests
