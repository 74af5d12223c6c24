-- ===== src/Wallet/Tests.antt =====
-- Runs of the wallet service over clients in memory, and the theorems at concrete inputs.
use mathlib.Core.List.{mem-singleton}
use mathlib.Core.HLevel.{prop→set}
use Prim.Native.Char.{IsScalar}
use native.Mathlib.Nat.{ℕ_set}
use text.Mathlib.TextEquality.{IsScalar-prop}
use nexapay_fintech_super_ap.Wallet.Entities.{Transaction}
use nexapay_fintech_super_ap.Wallet.Repository.Calls.{history}
use nexapay_fintech_super_ap.Common.{
  false, ◌∙◌, sym, subst, ap, ℕ, ◌+◌, ◌*◌, ◌≤◌, ◌≡◌, refl, true, none, some, [], ◌∷◌, ◌++◌, arith,
  length, take, filter,
}
use nexapay_fintech_super_ap.Common.Rows.{find?}
use nexapay_fintech_super_ap.Common.Action.{ok}
use nexapay_fintech_super_ap.Common.InMemory.{table, redis, Cache}
use nexapay_fintech_super_ap.Wallet.Entities.{
  Wallet, TransferDto, TopUpDto, Env, Clients, State, settle,
}
use nexapay_fintech_super_ap.Wallet.Repository.{has_id, touches}
use nexapay_fintech_super_ap.Wallet.Repository.Transfer.{transferred, execute_transfer-ok}
use nexapay_fintech_super_ap.Wallet.Service.{Page, top_up, transfer, get_transactions}
use nexapay_fintech_super_ap.Wallet.Service.Outcomes.{
  TransferOutcome, moved, transfer-TransferOutcome, transfer-ok, after_transfer,
}
use nexapay_fintech_super_ap.Wallet.Service.Owners.{
  create_wallet_for-free, create_wallet_for-create_wallet_for,
}
use nexapay_fintech_super_ap.Wallet.Service.{create_wallet_for}
use nexapay_fintech_super_ap.Wallet.Repository.{new_wallet}
use nexapay_fintech_super_ap.Wallet.Entities.{CreateWalletDto}
use nexapay_fintech_super_ap.Common.Action.{err, conflict}
use nexapay_fintech_super_ap.Wallet.Service.History.{TimesDiffer, get_transactions_tiles}
use nexapay_fintech_super_ap.Wallet.Balances.{
  total, execute_transfer-total, transfer-total, Moved, transfer-Moved, transfer-others, Deposits,
  top_up-Deposits,
}
use nexapay_fintech_super_ap.Wallet.Idempotency.{transfer-transfer, transfer_retry}
use nexapay_fintech_super_ap.Wallet.Repository.{has_key}
use nexapay_fintech_super_ap.Wallet.Ledger.{Accounts, transfer-Accounts, top_up-Accounts}

abbrev clients : Clients (Cache ℕ)
clients = record {
  wallets = table;
  transactions = table;
  logs = table;
  redis = redis;
  transaction = λ m d. settle d (m d);
  transaction_lem = λ m d. refl;
}

abbrev wallet : ℕ → ℕ → ℕ → Wallet
wallet id user balance = record {
  id = id;
  user_id = user;
  currency = 840;
  balance = balance;
  version = 1;
  created_at = 0;
  updated_at = 0;
}

-- Two wallets with 100.00 and 30.00, and nothing recorded yet.
abbrev start : State (Cache ℕ)
start = record {
  db = record { wallets = wallet 1 11 10000 ∷ wallet 2 12 3000 ∷ []; transactions = []; logs = [] };
  cache = λ _. none;
  events = [];
}

abbrev empty : State (Cache ℕ)
empty = record start {
  db = record { wallets = wallet 1 11 0 ∷ wallet 2 12 0 ∷ []; transactions = []; logs = [] };
}

abbrev env_at : ℕ → Env
env_at uuid = record {
  now = uuid * 10;
  uuid = uuid;
  log_uuid = uuid + 1;
  second_log_uuid = uuid + 2;
  delivered = λ _. true;
  cache_writes = λ _. true;
  cache_reads = λ _. true;
}

abbrev send : ℕ → ℕ → TransferDto
send amount key = record {
  from_wallet_id = 1;
  to_wallet_id = 2;
  amount = amount;
  currency = 840;
  idempotency_key = key;
  description = none;
}

abbrev pay_in : ℕ → ℕ → TopUpDto
pay_in amount key = record {
  user_id = 11;
  amount = amount;
  currency = 840;
  idempotency_key = key;
  description = none;
}

abbrev sent : State (Cache ℕ)
sent = (transfer clients (env_at 100) (send 4000 7) start).1

-- The run, by the theorem that it goes through.
transfer_runs : transfer clients (env_at 100) (send 4000 7) start ≡ (
  ok (moved clients (env_at 100) (send 4000 7) (wallet 1 11 10000) (wallet 2 12 3000)),
  after_transfer clients (env_at 100) (send 4000 7) (wallet 1 11 10000) (wallet 2 12 3000) start,
)
transfer_runs =
    transfer-ok clients (env_at 100) (send 4000 7) start (wallet 1 11 10000) (wallet 2 12 3000)
      (omega arith) refl refl (omega arith) refl refl (refl, (refl, tt))

transfer-TransferOutcome_example :
    TransferOutcome clients
      (env_at 100)
      (send 4000 7)
      start
      (transfer clients (env_at 100) (send 4000 7) start)
transfer-TransferOutcome_example = transfer-TransferOutcome clients (env_at 100) (send 4000 7) start

transfer-total_example : total sent.db.wallets ≡ 13000
transfer-total_example = transfer-total clients (env_at 100) (send 4000 7) start

transfer-Moved_example :
    ((transfer clients (env_at 100) (send 4000 7) start).0
      ≡ ok (moved clients (env_at 100) (send 4000 7) (wallet 1 11 10000) (wallet 2 12 3000)))
    × Moved clients
        (env_at 100)
        (send 4000 7)
        (wallet 1 11 10000)
        (wallet 2 12 3000)
        sent.db.wallets
transfer-Moved_example =
    transfer-Moved clients (env_at 100) (send 4000 7) start (wallet 1 11 10000) (wallet 2 12 3000)
      (omega arith) refl refl (omega arith) refl refl (refl, (refl, tt)) refl

transfer-others_example : find? (has_id 3) sent.db.wallets ≡ none
transfer-others_example =
    transfer-others clients (env_at 100) (send 4000 7) start 3 (omega arith) (omega arith)

top_up-Deposits_example :
    Deposits clients
      (env_at 100)
      (pay_in 500 8)
      start
      (top_up clients (env_at 100) (pay_in 500 8) start)
top_up-Deposits_example = top_up-Deposits clients (env_at 100) (pay_in 500 8) start

empty-Accounts : Accounts empty.db
empty-Accounts = λ id. ground arith

top_up-Accounts_example : Accounts (top_up clients (env_at 100) (pay_in 500 8) empty).1.db
top_up-Accounts_example = top_up-Accounts clients (env_at 100) (pay_in 500 8) empty empty-Accounts

transfer-Accounts_example :
    Accounts
      (transfer clients
        (env_at 200)
        (send 400 9)
        (top_up clients (env_at 100) (pay_in 500 8) empty).1).1.db
transfer-Accounts_example =
    transfer-Accounts clients (env_at 200) (send 400 9)
      (top_up clients (env_at 100) (pay_in 500 8) empty).1 top_up-Accounts_example

-- The second request has the key of the first one and another amount.
transfer-transfer_example :
    transfer clients (env_at 200) (send 1 7) sent
    ≡ (ok (moved clients (env_at 100) (send 4000 7) (wallet 1 11 10000) (wallet 2 12 3000)), sent)
transfer-transfer_example =
    transfer-transfer clients (env_at 100) (send 4000 7) start (env_at 200) (send 1 7)
      (moved clients (env_at 100) (send 4000 7) (wallet 1 11 10000) (wallet 2 12 3000))
      (ap (λ r. r.0) transfer_runs) refl (omega arith)

-- Redis takes no balance.
abbrev uncached : Env
uncached = record (env_at 100) { cache_writes = λ _. false }

abbrev sent_uncached : State (Cache ℕ)
sent_uncached = (transfer clients uncached (send 4000 7) start).1

transfer_retry_example :
    (tx : Transaction) × (find? (has_key 7) start.db.transactions ≡ none)
    × (find? (has_key 7) sent_uncached.db.transactions ≡ some tx)
    × (transfer clients (env_at 200) (send 4000 7) sent_uncached ≡ (ok tx, sent_uncached))
transfer_retry_example = transfer_retry clients uncached (send 4000 7) start (env_at 200) (
    ap (λ r. r.0)
      (transfer-ok clients uncached (send 4000 7) start (wallet 1 11 10000) (wallet 2 12 3000)
        (omega arith) refl refl (omega arith) refl refl (refl, (refl, tt))))

-- The caller's copy of the second wallet has 10.00 where the table has 30.00.
execute_transfer-total_example :
    (t : Wallet) × (find? (has_id 2) start.db.wallets ≡ some t)
    × (total
            (transferred
              (env_at 100)
              (wallet 1 11 10000)
              (wallet 2 12 1000)
              4000
              840
              7
              none
              (wallet 1 11 10000)
              start.db).wallets
          + t.balance
        ≡ total start.db.wallets + 1000)
execute_transfer-total_example =
    execute_transfer-total clients (env_at 100) (wallet 1 11 10000) (wallet 2 12 1000) 4000 840 7
      none start.db
      (transferred (env_at 100) (wallet 1 11 10000) (wallet 2 12 1000) 4000 840 7 none
        (wallet 1 11 10000) start.db)
      (omega arith)
      (execute_transfer-ok clients (env_at 100) (wallet 1 11 10000) (wallet 2 12 1000) 4000 840 7
        none (omega arith) start.db (wallet 1 11 10000) (wallet 2 12 3000) refl refl (omega arith)
        refl (refl, (refl, tt)))

IsScalar-IsSet : (n : ℕ) → IsSet (IsScalar n)
IsScalar-IsSet n = prop→set (IsScalar-prop n)

Transaction-IsSet : IsSet Transaction
Transaction-IsSet = hlevel (ℕ_set, IsScalar-IsSet)

-- There is one transaction.
sent-TimesDiffer : TimesDiffer 1 sent.db
sent-TimesDiffer =
    subst (λ d. TimesDiffer 1 d) (sym (ap (λ r. r.1.db) transfer_runs))
      (λ x y mx my e.
        (mem-singleton Transaction-IsSet).0 mx ∙ sym ((mem-singleton Transaction-IsSet).0 my))

get_transactions_tiles_example :
    (p : Page) × (get_transactions clients 1 2 5 sent ≡ (ok p, sent))
    × (take (1 * 5) (history clients 1 sent.db) ++ p.rows
        ≡ take (1 * 5 + 5) (history clients 1 sent.db))
    × (length p.rows ≤ 5)
    × (p.total ≡ length (filter (touches 1) sent.db.transactions))
get_transactions_tiles_example =
    get_transactions_tiles clients 1 sent 1 5
      (ap (λ r. find? (has_id 1) r.1.db.wallets) transfer_runs) sent-TimesDiffer

-- A third user asks for a wallet, in the default currency.
abbrev request : CreateWalletDto
request = record { user_id = 13; currency = none }

abbrev opened : State (Cache ℕ)
opened = (create_wallet_for clients (env_at 100) request start).1

create_runs :
    create_wallet_for clients (env_at 100) request start
    ≡ (ok (new_wallet (env_at 100) 13 840), opened)
create_runs =
    ap (λ r. (r, opened)) (create_wallet_for-free clients (env_at 100) request start refl refl).0

create_wallet_for-create_wallet_for_example :
    create_wallet_for clients (env_at 200) (record { user_id = 13; currency = some 840 }) opened
    ≡ (err conflict, opened)
create_wallet_for-create_wallet_for_example =
    create_wallet_for-create_wallet_for clients (env_at 100) (env_at 200) request
      (record { user_id = 13; currency = some 840 }) start opened create_runs refl refl
