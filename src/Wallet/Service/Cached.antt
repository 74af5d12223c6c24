-- ===== src/Wallet/Service/Cached.antt =====
-- wallet.service.ts, `getBalance` after `transfer`: the cached balances against the database.
use nexapay_fintech_super_ap.Wallet.Entities.{Wallet}
