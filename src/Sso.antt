-- ===== src/Sso.antt =====
-- The sign-in flow: the routes apps/platform/app/api/authorize/approve/route.ts, which issues a code
-- for a consent, and apps/platform/app/api/authorize/exchange/route.ts, which turns it into claims.
pub mod Tests
pub mod Platform
pub mod Exchange
pub mod Approve
