-- ===== src/Callback.antt =====
-- apps/platform/lib/callback-allowlist.ts: which redirect_uri may receive an authorization code.
-- The URL parser of the web platform is the parameter `parse_url`; `none` is that `new URL` throws.
pub mod Tests
pub mod Url
pub mod Allowlist
pub mod Registration
pub mod Redirect
