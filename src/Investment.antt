-- ===== src/Investment.antt =====
-- The investment service (services/investment/src/modules/investment).
pub mod Entities
pub mod Repository
pub mod Valuation
pub mod Service
mod Tests
