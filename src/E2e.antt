-- ===== src/E2e.antt =====
-- src/e2e and include/e2e: end-to-end protection.
pub mod Header
pub mod Crc
pub mod Profile
pub mod Registry
mod Tests
