-- ===== src/Chain.antt =====
-- apps/platform/lib/chain/index.ts: the live reads of the three contracts. The contracts and
-- `keccak256` are not part of the library's TypeScript: they are the parameter `Contracts`, whose
-- reads may throw.
pub mod Roles
pub mod Reads
