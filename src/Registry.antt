-- ===== src/Registry.antt =====
-- apps/platform/lib/applications.ts: the registry of applications, and the requests that it
-- resolves.
pub mod Tests
pub mod Records
pub mod Reads
pub mod Requests
