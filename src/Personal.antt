-- ===== src/Personal.antt =====
-- apps/platform/lib/hash.ts and crypto.ts: private records, their anchors and their ciphertexts.
pub mod Canonical
pub mod Pii
mod Tests
