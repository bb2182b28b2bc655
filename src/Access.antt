-- ===== src/Access.antt =====
-- apps/platform/lib/access-decision.ts and live-access.ts: what live reads of the contracts mean,
-- and the claims that a partner is told.
pub mod Tests
pub mod Decision
pub mod Evaluate
pub mod Live
pub mod Claims
