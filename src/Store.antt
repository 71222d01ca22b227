-- ===== src/Store.antt =====
-- internal/store: the keyspace of a shard.
pub mod State
pub mod Expiry
pub mod Delete
pub mod Evict
pub mod Put
pub mod Access
pub mod Sweep
pub mod Fields
pub mod Invariant
pub mod View
