-- ===== src/Wallet.antt =====
-- The wallet service (services/wallet/src/modules/wallet): entities, repository, service.
pub mod Entities
pub mod Repository
pub mod Service
pub mod Balances
pub mod Idempotency
pub mod Ledger
mod Tests
