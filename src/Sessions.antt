-- ===== src/Sessions.antt =====
-- apps/platform/lib/session.ts and authz.ts: who is signed in, and what it may do.
pub mod Store
pub mod Guards
mod Tests
