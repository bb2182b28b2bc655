-- ===== src/Siwe.antt =====
-- apps/platform/lib/siwe.ts: signing in with a wallet.
pub mod Tests
pub mod Message
pub mod Verify
pub mod Issue
