-- ===== src/Utils.antt =====
-- The utilities that the services share (shared/utils).
pub mod Security
pub mod AuditLog
pub mod Crypto
pub mod Money
mod Tests
