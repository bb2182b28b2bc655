-- ===== src/Codes.antt =====
-- apps/platform/lib/authorize.ts and authorize-store.ts: authorization codes. Instants are numbers
-- of milliseconds; the ISO texts of the source name the same instants.
pub mod Tests
pub mod Store
pub mod Rows
pub mod Memory
pub mod Postgres
pub mod Operations
