-- ===== src/Wallet/Repository.antt =====
-- wallet.repository.ts: the queries and the two database transactions.
pub mod Calls
pub mod Writes
pub mod Transfer
pub mod TopUp
use nexapay_fintech_super_ap.Common.{
  ℕ, ◌+◌, ◌-◌, ◌≡◌, Bool, true, false, not, ◌&&◌, ◌||◌, Option, none, some, List, [], ◌∷◌, ◌==◌,
  ltb, if◌then◌else◌, or_else,
}
use nexapay_fintech_super_ap.Common.Int.{ℤ, pos, neg}
use nexapay_fintech_super_ap.Common.Action.{
  Action, Result, ok, err, ◌>>=◌, ◌>>◌, pure, throw, gets, modify, throw_if, or_throw, Exception,
  insufficient_balance, version_conflict, wallet_missing, destination_missing, record_required,
  unique_violation, validation_failed,
}
use nexapay_fintech_super_ap.Wallet.Entities.{
  TransactionType, TransactionStatus, Operation, Wallet, Iso20022, Metadata, Transaction,
  BalanceAuditLog, Db, Env, Clients,
}
use Prim.Native.String.{String}

-- The conditions of the queries.
abbrev pub owned_by : ℕ → ℕ → Wallet → Bool
owned_by user_id currency w = w.user_id == user_id && w.currency == currency

abbrev pub has_id : ℕ → Wallet → Bool
has_id id w = w.id == id

abbrev pub at_version : ℕ → ℕ → Wallet → Bool
at_version id version w = w.id == id && w.version == version

abbrev pub has_key : ℕ → Transaction → Bool
has_key key tx = tx.idempotency_key == key

abbrev pub is_id : ℕ → Option ℕ → Bool
is_id id none = false
is_id id (some other) = other == id

-- `OR: [{ fromWalletId: walletId }, { toWalletId: walletId }]`
abbrev pub touches : ℕ → Transaction → Bool
touches id tx = is_id id tx.from_wallet_id || is_id id tx.to_wallet_id

-- The row that `wallet.update` writes.
abbrev pub set_balance : ℕ → ℕ → Wallet → Wallet
set_balance now balance w = record w {
  balance = balance;
  version = w.version + 1;
  updated_at = now;
}

abbrev pub new_wallet : Env → ℕ → ℕ → Wallet
new_wallet env user_id currency = record {
  id = env.uuid;
  user_id = user_id;
  currency = currency;
  balance = 0;
  version = 1;
  created_at = env.now;
  updated_at = env.now;
}

abbrev pub top_up_transaction : Env → ℕ → ℕ → ℕ → ℕ → Option String → Transaction
top_up_transaction env wallet_id amount currency key description = record {
  id = env.uuid;
  idempotency_key = key;
  from_wallet_id = none;
  to_wallet_id = some wallet_id;
  amount = amount;
  currency = currency;
  type = TransactionType.top_up;
  status = TransactionStatus.completed;
  description = some (or_else description "Wallet top-up");
  metadata = some (record {
    operation = Operation.top_up;
    iso20022 = record {
      msg_id = key;
      cre_dt_tm = env.now;
      nb_of_txs = 1;
      ttl_intr_bk_sttlm_amt = amount;
      sttlm_ccy = currency;
      dbtr = none;
      cdtr = none;
    };
  });
  created_at = env.now;
  updated_at = env.now;
}

abbrev pub transfer_transaction : Env → Wallet → Wallet → ℕ → ℕ → ℕ → Option String → Transaction
transfer_transaction env from_wallet to_wallet amount currency key description = record {
  id = env.uuid;
  idempotency_key = key;
  from_wallet_id = some from_wallet.id;
  to_wallet_id = some to_wallet.id;
  amount = amount;
  currency = currency;
  type = TransactionType.transfer;
  status = TransactionStatus.completed;
  description = some (or_else description "P2P transfer");
  metadata = some (record {
    operation = Operation.transfer;
    iso20022 = record {
      msg_id = key;
      cre_dt_tm = env.now;
      nb_of_txs = 1;
      ttl_intr_bk_sttlm_amt = amount;
      sttlm_ccy = currency;
      dbtr = some from_wallet.user_id;
      cdtr = some to_wallet.user_id;
    };
  });
  created_at = env.now;
  updated_at = env.now;
}

-- One row of `balanceAuditLog`.
abbrev pub audit_log : ℕ → Env → ℕ → ℕ → ℕ → ℤ → ℕ → Operation → ℕ → BalanceAuditLog
audit_log uuid env wallet_id previous new change transaction_id operation key = record {
  id = uuid;
  wallet_id = wallet_id;
  previous_balance = previous;
  new_balance = new;
  change_amount = change;
  transaction_id = some transaction_id;
  operation = operation;
  idempotency_key = key;
  created_at = env.now;
}

-- The audit entries of a transfer, with the old balances that it worked with.
abbrev pub transfer_logs : Env → ℕ → ℕ → ℕ → ℕ → ℕ → ℕ → List BalanceAuditLog
transfer_logs env from_id to_id from_previous to_previous amount key =
    audit_log env.log_uuid env from_id from_previous (from_previous - amount) (neg amount) env.uuid
      Operation.debit key
    ∷ audit_log env.second_log_uuid env to_id to_previous (to_previous + amount) (pos amount)
        env.uuid Operation.credit key
    ∷ []

module _ {C : Type 0} (c : Clients C) where
  pub find_wallet : ℕ → ℕ → Action Db (Option Wallet)
  find_wallet user_id currency =
      gets (λ d. c.wallets.find_unique (owned_by user_id currency) d.wallets)

  pub find_wallet_by_id : ℕ → Action Db (Option Wallet)
  find_wallet_by_id id = gets (λ d. c.wallets.find_unique (has_id id) d.wallets)

  pub find_by_idempotency_key : ℕ → Action Db (Option Transaction)
  find_by_idempotency_key key = gets (λ d. c.transactions.find_unique (has_key key) d.transactions)

  -- The latest first; `skip` may be negative.
  pub find_transactions_by_wallet : ℕ → ℤ → ℕ → Action Db (List Transaction)
  find_transactions_by_wallet wallet_id skip size = do
    page ← gets (λ d.
        c.transactions.find_page (touches wallet_id) (λ tx. tx.created_at) skip size d.transactions)
    or_throw page validation_failed

  pub count_transactions_by_wallet : ℕ → Action Db ℕ
  count_transactions_by_wallet wallet_id =
      gets (λ d. c.transactions.count (touches wallet_id) d.transactions)

  pub create_wallet : Env → ℕ → ℕ → Action Db Wallet
  create_wallet env user_id currency = do
    let w = new_wallet env user_id currency
    created ←
        gets (λ d.
          c.wallets.create (λ x. has_id env.uuid x || owned_by user_id currency x) w d.wallets)
    rows ← or_throw created unique_violation
    modify (λ d. record d { wallets = rows })
    pure w

  -- `tx.wallet.update`, which returns the row that it wrote.
  pub update_wallet : (Wallet → Bool) → (Wallet → Wallet) → Action Db Wallet
  update_wallet p f = do
    (updated, rows) ← or_throw (← gets (λ d. c.wallets.update p f d.wallets)) record_required
    modify (λ d. record d { wallets = rows })
    pure updated

  pub create_transaction : Transaction → Action Db Transaction
  create_transaction tx = do
    created ← gets (λ d.
        c.transactions.create (λ x. x.id == tx.id || has_key tx.idempotency_key x) tx
          d.transactions)
    rows ← or_throw created unique_violation
    modify (λ d. record d { transactions = rows })
    pure tx

  pub create_log : BalanceAuditLog → Action Db (Unit {0})
  create_log log = do
    rows ← or_throw (← gets (λ d. c.logs.create (λ x. x.id == log.id) log d.logs)) unique_violation
    modify (λ d. record d { logs = rows })

  -- `balanceAuditLog.createMany`
  pub create_logs : List BalanceAuditLog → Action Db (Unit {0})
  create_logs [] = pure tt
  create_logs (log ∷ logs) = create_log log >> create_logs logs

  -- How both database transactions end: the transaction's row, then its audit entries.
  pub record_movement : Transaction → List BalanceAuditLog → Action Db Transaction
  record_movement tx logs = do created ← create_transaction tx; create_logs logs; pure created

  -- The body of the `$transaction` of `executeTopUp`.
  top_up_body : Env → ℕ → ℕ → ℕ → ℕ → Option String → Action Db Transaction
  top_up_body env wallet_id amount currency key description = do
    wallet ← or_throw (← find_wallet_by_id wallet_id) wallet_missing
    let previous_balance = wallet.balance
    let new_balance = previous_balance + amount
    updated ← update_wallet (at_version wallet_id wallet.version) (set_balance env.now new_balance)
    throw_if (not (updated.version == wallet.version + 1)) version_conflict
    let tx = top_up_transaction env wallet_id amount currency key description
    record_movement tx (
        audit_log env.log_uuid env wallet_id previous_balance new_balance (pos amount) tx.id
          Operation.top_up key
        ∷ [])

  pub execute_top_up : Env → ℕ → ℕ → ℕ → ℕ → Option String → Action Db Transaction
  execute_top_up env wallet_id amount currency key description =
      c.transaction (top_up_body env wallet_id amount currency key description)

  -- The body of the `$transaction` of `executeTransfer`. The wallets are those that the caller
  -- read before it; the source is read again, and the destination's old balance is not.
  transfer_body : Env → Wallet → Wallet → ℕ → ℕ → ℕ → Option String → Action Db Transaction
  transfer_body env from_wallet to_wallet amount currency key description = do
    fresh_from ← or_throw (← find_wallet_by_id from_wallet.id) insufficient_balance
    throw_if (ltb fresh_from.balance amount) insufficient_balance
    let from_previous = fresh_from.balance
    let from_new = from_previous - amount
    let to_previous = to_wallet.balance
    let to_new = to_previous + amount
    updated ←
        update_wallet (at_version from_wallet.id fresh_from.version) (set_balance env.now from_new)
    throw_if (not (updated.version == fresh_from.version + 1)) version_conflict
    fresh_to ← or_throw (← find_wallet_by_id to_wallet.id) destination_missing
    update_wallet (at_version to_wallet.id fresh_to.version) (set_balance env.now to_new)
    record_movement (transfer_transaction env from_wallet to_wallet amount currency key description)
        (transfer_logs env from_wallet.id to_wallet.id from_previous to_previous amount key)

  pub execute_transfer : Env → Wallet → Wallet → ℕ → ℕ → ℕ → Option String → Action Db Transaction
  execute_transfer env from_wallet to_wallet amount currency key description =
      c.transaction (transfer_body env from_wallet to_wallet amount currency key description)
