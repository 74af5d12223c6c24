-- ===== src/Wallet/Service.antt =====
-- wallet.service.ts: the methods of `WalletService` over the repository, the cache and Kafka.
pub mod Outcomes
pub mod History
pub mod Owners
pub mod Cached
use nexapay_fintech_super_ap.Common.{
  ℕ, zero, suc, ◌+◌, ◌-◌, ◌*◌, not, Option, none, some, List, [], ◌∷◌, ◌++◌, map, ◌==◌, ltb,
  if◌then◌else◌, or_else, is_some,
}
use nexapay_fintech_super_ap.Common.Int.{ℤ, pos, neg}
use nexapay_fintech_super_ap.Common.Action.{
  Action, Result, ok, err, ◌>>=◌, ◌>>◌, pure, modify, throw_if, or_throw, Exception, bad_request,
  not_found, conflict, version_conflict, together, cache_unavailable,
}
use nexapay_fintech_super_ap.Wallet.Entities.{
  Wallet, Transaction, CreateWalletDto, TopUpDto, TransferDto, Db, Topic, Event, Env, Clients,
  State,
}
use nexapay_fintech_super_ap.Wallet.Repository.{
  find_wallet, find_wallet_by_id, find_by_idempotency_key, find_transactions_by_wallet,
  count_transactions_by_wallet, create_wallet, execute_top_up, execute_transfer,
}

-- 'USD'
abbrev pub usd : ℕ
usd = 840

-- In milliseconds.
abbrev pub balance_cache_ttl : ℕ
balance_cache_ttl = 60000

pub map_transaction : Transaction → Transaction
map_transaction tx = record {
  id = tx.id;
  idempotency_key = tx.idempotency_key;
  from_wallet_id = tx.from_wallet_id;
  to_wallet_id = tx.to_wallet_id;
  amount = tx.amount;
  currency = tx.currency;
  type = tx.type;
  status = tx.status;
  description = tx.description;
  metadata = tx.metadata;
  created_at = tx.created_at;
  updated_at = tx.updated_at;
}

-- What a page of transactions is returned with.
pub record Page : Type 0 where
  pub rows : List Transaction
  pub total : ℕ
  pub page : ℕ
  pub limit : ℕ

-- `(page - 1) * limit`
abbrev pub offset : ℕ → ℕ → ℤ
offset zero limit = neg limit
offset (suc page) limit = pos (page * limit)

-- The answers of `grpcValidateTransfer`.
pub data Verdict : Type 0 where
  valid no_source insufficient currency_mismatch : Verdict

-- `catch (error)`: a message with 'version conflict' becomes a ConflictException.
abbrev pub rethrow : Exception → Exception
rethrow version_conflict = conflict
rethrow e = e

abbrev pub rethrow_from : {S A : Type 0} → Result A × S → Result A × S
rethrow_from (ok a, s) = (ok a, s)
rethrow_from (err e, s) = (err (rethrow e), s)

abbrev pub catch_conflict : {S A : Type 0} → Action S A → Action S A
catch_conflict m s = rethrow_from (m s)

-- The events sent, with one more if Kafka takes it.
abbrev pub emitted : Env → Event → List Event → List Event
emitted env e events = if env.delivered e.topic then events ++ e ∷ [] else events

abbrev pub transfer_event : Env → TransferDto → Topic → Wallet → Wallet → ℕ → Event
transfer_event env dto topic wallet other tx_id = record {
  topic = topic;
  wallet_id = wallet.id;
  user_id = wallet.user_id;
  amount = dto.amount;
  currency = dto.currency;
  transaction_id = tx_id;
  counterparty_wallet_id = some other.id;
  idempotency_key = dto.idempotency_key;
  timestamp = env.now;
}

abbrev pub top_up_event : Env → TopUpDto → Wallet → ℕ → Event
top_up_event env dto wallet tx_id = record {
  topic = Topic.credited;
  wallet_id = wallet.id;
  user_id = dto.user_id;
  amount = dto.amount;
  currency = dto.currency;
  transaction_id = tx_id;
  counterparty_wallet_id = none;
  idempotency_key = dto.idempotency_key;
  timestamp = env.now;
}

module _ {C : Type 0} where
  abbrev pub in_db : {A : Type 0} → Action Db A → Action (State C) A
  in_db m s = let (r, d) = m s.db in (r, record s { db = d })

  -- `emitKafkaEvent`: a failure is caught and logged.
  pub emit_kafka_event : Env → Event → Action (State C) (Unit {0})
  emit_kafka_event env e = modify (λ s. record s { events = emitted env e s.events })

module _ {C : Type 0} (c : Clients C) where
  -- The balances in Redis, with one more if Redis takes it.
  abbrev pub cache_with : Env → ℕ → ℕ → C → C
  cache_with env wallet_id balance cache =
      if env.cache_writes wallet_id
      then c.redis.setex env.now wallet_id balance_cache_ttl balance cache
      else cache

  pub cache_balance : Env → ℕ → ℕ → Action (State C) (Unit {0})
  cache_balance env wallet_id balance s = (
    if env.cache_writes wallet_id then ok tt else err cache_unavailable,
    record s { cache = cache_with env wallet_id balance s.cache },
  )

  -- `redis.get` of the balance of a wallet.
  pub cached_balance : Env → ℕ → Action (State C) (Option ℕ)
  cached_balance env wallet_id s =
      if env.cache_reads wallet_id
      then (ok (c.redis.get env.now wallet_id s.cache), s)
      else (err cache_unavailable, s)

  pub create_wallet_for : Env → CreateWalletDto → Action (State C) Wallet
  create_wallet_for env dto = do
    existing ← in_db (find_wallet c dto.user_id (or_else dto.currency usd))
    throw_if (is_some existing) conflict
    wallet ← in_db (create_wallet c env dto.user_id (or_else dto.currency usd))
    cache_balance env wallet.id wallet.balance
    pure wallet

  pub get_balance : Env → ℕ → ℕ → Action (State C) Wallet
  get_balance env user_id currency = do
    wallet ← or_throw (← in_db (find_wallet c user_id currency)) not_found
    cached ← cached_balance env wallet.id
    elim cached [
      | some balance ↦ pure (record wallet { balance = balance })
      | none ↦ (cache_balance env wallet.id wallet.balance >> pure wallet)
    ]

  -- `topUp` once its key is known to be new.
  new_top_up : Env → TopUpDto → Wallet → Action (State C) Transaction
  new_top_up env dto wallet = do
    tx ←
        in_db (
          execute_top_up c env wallet.id dto.amount dto.currency dto.idempotency_key
            dto.description)
    together (cache_balance env wallet.id (wallet.balance + dto.amount))
        (emit_kafka_event env (top_up_event env dto wallet tx.id))
    pure (map_transaction tx)

  pub top_up : Env → TopUpDto → Action (State C) Transaction
  top_up env dto = do
    wallet ← or_throw (← in_db (find_wallet c dto.user_id dto.currency)) not_found
    existing ← in_db (find_by_idempotency_key c dto.idempotency_key)
    elim existing [ some tx ↦ pure (map_transaction tx) | none ↦ new_top_up env dto wallet ]

  -- `transfer` from the call of `executeTransfer` on.
  settle_transfer : Env → TransferDto → Wallet → Wallet → Action (State C) Transaction
  settle_transfer env dto from_wallet to_wallet = do
    tx ← catch_conflict (
        in_db (
          execute_transfer c env from_wallet to_wallet dto.amount dto.currency dto.idempotency_key
            dto.description))
    together (cache_balance env from_wallet.id (from_wallet.balance - dto.amount)) (
        together (cache_balance env to_wallet.id (to_wallet.balance + dto.amount)) (
          together
            (emit_kafka_event env
              (transfer_event env dto Topic.debited from_wallet to_wallet tx.id))
            (emit_kafka_event env
              (transfer_event env dto Topic.credited to_wallet from_wallet tx.id))))
    pure (map_transaction tx)

  -- `transfer` once its key is known to be new.
  new_transfer : Env → TransferDto → Action (State C) Transaction
  new_transfer env dto = do
    from_wallet ← or_throw (← in_db (find_wallet_by_id c dto.from_wallet_id)) not_found
    to_wallet ← or_throw (← in_db (find_wallet_by_id c dto.to_wallet_id)) not_found
    throw_if (ltb from_wallet.balance dto.amount) bad_request
    settle_transfer env dto from_wallet to_wallet

  pub transfer : Env → TransferDto → Action (State C) Transaction
  transfer env dto = do
    throw_if (dto.from_wallet_id == dto.to_wallet_id) bad_request
    existing ← in_db (find_by_idempotency_key c dto.idempotency_key)
    elim existing [ some tx ↦ pure (map_transaction tx) | none ↦ new_transfer env dto ]

  pub get_transactions : ℕ → ℕ → ℕ → Action (State C) Page
  get_transactions wallet_id page limit = do
    or_throw (← in_db (find_wallet_by_id c wallet_id)) not_found
    transactions ← in_db (find_transactions_by_wallet c wallet_id (offset page limit) limit)
    total ← in_db (count_transactions_by_wallet c wallet_id)
    pure (record {
      rows = map map_transaction transactions;
      total = total;
      page = page;
      limit = limit;
    })

  pub get_statement : ℕ → Action (State C) (List Transaction)
  get_statement wallet_id = do
    or_throw (← in_db (find_wallet_by_id c wallet_id)) not_found
    transactions ← in_db (find_transactions_by_wallet c wallet_id (pos 0) 10)
    pure (map map_transaction transactions)

  pub grpc_get_balance : Env → ℕ → Option ℕ → Action (State C) (ℕ × ℕ × ℕ)
  grpc_get_balance env user_id currency = do
    wallet ← get_balance env user_id (or_else currency usd)
    pure (wallet.balance, wallet.currency, wallet.user_id)

  pub grpc_validate_transfer : ℕ → ℕ → ℕ → Action (State C) Verdict
  grpc_validate_transfer from_wallet_id amount currency = do
    source ← in_db (find_wallet_by_id c from_wallet_id)
    pure (elim source [
      | none ↦ no_source
      | some wallet ↦
          if ltb wallet.balance amount
          then insufficient
          else if not (wallet.currency == currency)
          then currency_mismatch
          else valid
    ])

  pub grpc_get_transaction_history :
      ℕ → Option ℕ → Option ℕ → Action (State C) (List Transaction × ℕ)
  grpc_get_transaction_history wallet_id page limit = do
    result ← get_transactions wallet_id (or_else page 1) (or_else limit 20)
    pure (result.rows, result.total)
