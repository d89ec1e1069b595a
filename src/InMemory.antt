-- ===== src/InMemory.antt =====
-- event_sourcery/_event_store/in_memory.py
pub mod Storage
pub mod Strategy
pub mod Invariant
pub mod Created
pub mod Insert
pub mod Inserted
pub mod Reads
pub mod Snapshots
pub mod Ranges
pub mod Locking
pub mod Subscription
pub mod Outbox
pub mod Reachable
