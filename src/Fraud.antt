-- ===== src/Fraud.antt =====
-- The fraud detection service (services/fraud-detection/src/modules/fraud).
pub mod Entities
pub mod Repository
pub mod Service
mod Tests
