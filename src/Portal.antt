-- ===== src/Portal.antt =====
-- apps/employee-portal: the partner application of the repository, which signs its users in.
pub mod Config
pub mod Session
pub mod Callback
pub mod Verify
mod Tests
