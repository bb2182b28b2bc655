-- ===== src/Assets.antt =====
-- apps/platform/lib/asset-binding.ts and app/api/assets/[assetId]/confirm/route.ts: which record of
-- the database holds a token.
pub mod Binding
pub mod Store
pub mod Confirm
mod Tests
