-- ===== src/Indexer.antt =====
-- apps/platform/lib/indexer.ts: the copy of the contracts' events in the database.
pub mod Events
pub mod Cache
pub mod Sync
mod Tests
