-- ===== src/Wallet/Entities.antt =====
-- wallet.entity.ts and dto/*.ts: the rows, the requests, and what a call takes from outside.
-- UUIDs, currency codes and keys are only compared, and are numbers here. Amounts are whole cents:
-- the requests are validated to be positive with two decimals, and the columns are Decimal(18, 2).
use nexapay_fintech_super_ap.Common.{ℕ, ◌≡◌, Bool, Option, List}
use nexapay_fintech_super_ap.Common.Int.{ℤ}
use nexapay_fintech_super_ap.Common.Action.{Action, Result, ok, err}
use nexapay_fintech_super_ap.Common.Clients.{Prisma, Redis}
use Prim.Native.String.{String}

pub data TransactionType : Type 0 where
  top_up transfer withdrawal payment : TransactionType

pub data TransactionStatus : Type 0 where
  pending completed failed reversed : TransactionStatus

pub data Operation : Type 0 where
  top_up transfer debit credit : Operation

pub record Wallet : Type 0 where
  pub id : ℕ
  pub user_id : ℕ
  pub currency : ℕ
  pub balance : ℕ
  pub version : ℕ
  pub created_at : ℕ
  pub updated_at : ℕ

pub record Iso20022 : Type 0 where
  pub msg_id : ℕ
  pub cre_dt_tm : ℕ
  pub nb_of_txs : ℕ
  pub ttl_intr_bk_sttlm_amt : ℕ
  pub sttlm_ccy : ℕ
  pub dbtr : Option ℕ
  pub cdtr : Option ℕ

pub record Metadata : Type 0 where
  pub operation : Operation
  pub iso20022 : Iso20022

pub record Transaction : Type 0 where
  pub id : ℕ
  pub idempotency_key : ℕ
  pub from_wallet_id : Option ℕ
  pub to_wallet_id : Option ℕ
  pub amount : ℕ
  pub currency : ℕ
  pub type : TransactionType
  pub status : TransactionStatus
  pub description : Option String
  pub metadata : Option Metadata
  pub created_at : ℕ
  pub updated_at : ℕ

pub record BalanceAuditLog : Type 0 where
  pub id : ℕ
  pub wallet_id : ℕ
  pub previous_balance : ℕ
  pub new_balance : ℕ
  pub change_amount : ℤ
  pub transaction_id : Option ℕ
  pub operation : Operation
  pub idempotency_key : ℕ
  pub created_at : ℕ

pub record CreateWalletDto : Type 0 where
  pub user_id : ℕ
  pub currency : Option ℕ

pub record TopUpDto : Type 0 where
  pub user_id : ℕ
  pub amount : ℕ
  pub currency : ℕ
  pub idempotency_key : ℕ
  pub description : Option String

pub record TransferDto : Type 0 where
  pub from_wallet_id : ℕ
  pub to_wallet_id : ℕ
  pub amount : ℕ
  pub currency : ℕ
  pub idempotency_key : ℕ
  pub description : Option String

-- The tables that the service writes.
pub record Db : Type 0 where
  pub wallets : List Wallet
  pub transactions : List Transaction
  pub logs : List BalanceAuditLog

pub data Topic : Type 0 where
  credited debited : Topic

pub record Event : Type 0 where
  pub topic : Topic
  pub wallet_id : ℕ
  pub user_id : ℕ
  pub amount : ℕ
  pub currency : ℕ
  pub transaction_id : ℕ
  pub counterparty_wallet_id : Option ℕ
  pub idempotency_key : ℕ
  pub timestamp : ℕ

-- The clock, the UUIDs that the database draws, whether Kafka takes an event, and whether Redis
-- takes the balance of a wallet and answers for it.
pub record Env : Type 0 where
  pub now : ℕ
  pub uuid : ℕ
  pub log_uuid : ℕ
  pub second_log_uuid : ℕ
  pub delivered : Topic → Bool
  pub cache_writes : ℕ → Bool
  pub cache_reads : ℕ → Bool

-- How `$transaction` ends from the database that it began with: a throw rolls back.
abbrev pub settle : Db → Result Transaction × Db → Result Transaction × Db
settle before (ok tx, after) = (ok tx, after)
settle before (err e, after) = (err e, before)

-- The external clients of the service.
pub record Clients (C : Type 0) : Type 0 where
  pub wallets : Prisma Wallet
  pub transactions : Prisma Transaction
  pub logs : Prisma BalanceAuditLog
  pub redis : Redis C ℕ
  pub transaction : Action Db Transaction → Action Db Transaction
  pub transaction_lem : (m : Action Db Transaction) (d : Db) → transaction m d ≡ settle d (m d)

-- The database, the balances in Redis, and the events sent.
pub record State (C : Type 0) : Type 0 where
  pub db : Db
  pub cache : C
  pub events : List Event
