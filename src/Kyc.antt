-- ===== src/Kyc.antt =====
-- The KYC part of the user service (services/user-kyc/src/modules/kyc).
pub mod Entities
pub mod Repository
pub mod Service
mod Tests
