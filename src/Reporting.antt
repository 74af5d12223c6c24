-- ===== src/Reporting.antt =====
-- The reporting service (services/reporting/src/modules/reporting).
pub mod Entities
pub mod Repository
pub mod Service
mod Tests
