-- ===== src/Loan.antt =====
-- The loan service (services/loan/src/modules/loan).
pub mod Entities
pub mod Repository
pub mod Terms
pub mod Service
mod Tests
