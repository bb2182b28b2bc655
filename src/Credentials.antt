-- ===== src/Credentials.antt =====
-- apps/platform/lib/client-credentials.ts, partner-credentials.ts and partner-auth.ts: the
-- credentials of a partner application.
pub mod Tests
pub mod Secret
