-- ===== src/Partner.antt =====
-- apps/platform/lib/partner-credentials.ts and partner-auth.ts, and app/api/roles/verify: the
-- partner's server as a caller.
pub mod Credentials
pub mod Auth
pub mod Verify
pub mod Tests
