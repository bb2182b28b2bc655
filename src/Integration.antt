-- ===== src/Integration.antt =====
-- apps/platform/lib/integration.ts: how far the wiring of an application is.
pub mod Stages
pub mod Tests
