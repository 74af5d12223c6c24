-- ===== src/Wallet/Repository/Calls.antt =====
-- What each call of the database client returns, as an equation on the rows.
use mathlib.Core.List.Perm
use nexapay_fintech_super_ap.Common.Order.{KeysTell, KeysTell-perm, descending_unique}
use nexapay_fintech_super_ap.Common.{
  length, filter, take, drop, ℕ, ◌≡◌, refl, Bool, true, false, ◌||◌, some, List, [], ◌∷◌, ◌++◌,
  ◌==◌, any, if◌then◌else◌,
}
use mathlib.Core.List.{append-nil, append_assoc}
use nexapay_fintech_super_ap.Common.Rows.{find?, replace}
use nexapay_fintech_super_ap.Common.Action.{
  Action, Result, ok, err, continue, unique_violation, insufficient_balance, wallet_missing,
  destination_missing, Exception,
}
use nexapay_fintech_super_ap.Common.{Bool-cases, ◌⊎◌, inl, inr}
use nexapay_fintech_super_ap.Wallet.Entities.{
  Env, Wallet, Transaction, BalanceAuditLog, Db, Clients,
}
use nexapay_fintech_super_ap.Wallet.Repository.{
  touches, pos, count_transactions_by_wallet, find_transactions_by_wallet, has_id, has_key,
  owned_by, find_wallet, find_wallet_by_id, find_by_idempotency_key, update_wallet, create_wallet,
  new_wallet, create_transaction, create_log, create_logs, record_movement,
}

-- The rows that a new transaction may not meet: its id and its key are unique.
abbrev pub clashes : Transaction → Transaction → Bool
clashes tx x = x.id == tx.id || has_key tx.idempotency_key x

abbrev pub log_clashes : BalanceAuditLog → BalanceAuditLog → Bool
log_clashes log x = x.id == log.id

-- What the database transactions throw: never 'version conflict'.
abbrev pub is_refusal : Exception → Bool
is_refusal insufficient_balance = true
is_refusal wallet_missing = true
is_refusal destination_missing = true
is_refusal unique_violation = true
is_refusal _ = false

-- A step throws, and with a refusal; or it returns the value, in the database.
abbrev pub Ends : {A : Type 0} → Result A × Db → A → Db → Type 0
Ends r a d' =
    ((e : Exception) × (d : Db) × (is_refusal e ≡ true) × (r ≡ (err e, d))) ⊎ (r ≡ (ok a, d'))

pub Ends-continue :
    {A B : Type 0} (r : Result A × Db) (f : A → Action Db B) {a : A} {b : B} {d' d'' : Db}
    → Ends r a d'
    → Ends (f a d') b d''
    → Ends (continue r f) b d''
Ends-continue r f (inl (e, d, ne, eq)) h = rw eq (inl (e, d, ne, refl))
Ends-continue r f (inr eq) h = rw eq h

-- No id of the new entries is taken, and they differ.
abbrev pub LogsFresh : List BalanceAuditLog → List BalanceAuditLog → Type 0
LogsFresh [] rows = Unit
LogsFresh (log ∷ logs) rows =
    (any (log_clashes log) rows ≡ false) × LogsFresh logs (rows ++ log ∷ [])

module _ {C : Type 0} (c : Clients C) where
  pub find_wallet_lem :
      (u k : ℕ) (d : Db) → find_wallet c u k d ≡ (ok (find? (owned_by u k) d.wallets), d)
  unfolding find_wallet
  find_wallet_lem u k d = rw (c.wallets.find_unique_lem (owned_by u k) d.wallets)

  pub find_wallet_by_id_lem :
      (id : ℕ) (d : Db) → find_wallet_by_id c id d ≡ (ok (find? (has_id id) d.wallets), d)
  unfolding find_wallet_by_id
  find_wallet_by_id_lem id d = rw (c.wallets.find_unique_lem (has_id id) d.wallets)

  pub find_by_idempotency_key_lem :
      (key : ℕ) (d : Db)
      → find_by_idempotency_key c key d ≡ (ok (find? (has_key key) d.transactions), d)
  unfolding find_by_idempotency_key
  find_by_idempotency_key_lem key d =
      rw (c.transactions.find_unique_lem (has_key key) d.transactions)

  pub update_wallet-some :
      (p : Wallet → Bool) (f : Wallet → Wallet) (d : Db) {w : Wallet}
      → find? p d.wallets ≡ some w
      → update_wallet c p f d ≡ (ok (f w), record d { wallets = replace p f d.wallets })
  unfolding update_wallet
  update_wallet-some p f d e = rw (c.wallets.update_some p f d.wallets e)

  pub create_transaction_lem :
      (tx : Transaction) (d : Db)
      → create_transaction c tx d ≡ (
          if any (clashes tx) d.transactions
          then (err unique_violation, d)
          else (ok tx, record d { transactions = d.transactions ++ tx ∷ [] }))
  unfolding create_transaction
  create_transaction_lem tx d =
      rw (c.transactions.create_lem (clashes tx) tx d.transactions)
        (elim (Bool-cases (any (clashes tx) d.transactions)) [ inl e ↦ rw e | inr e ↦ rw e ])

  pub create_log_lem :
      (log : BalanceAuditLog) (d : Db)
      → create_log c log d ≡ (
          if any (log_clashes log) d.logs
          then (err unique_violation, d)
          else (ok tt, record d { logs = d.logs ++ log ∷ [] }))
  unfolding create_log
  create_log_lem log d =
      rw (c.logs.create_lem (log_clashes log) log d.logs)
        (elim (Bool-cases (any (log_clashes log) d.logs)) [ inl e ↦ rw e | inr e ↦ rw e ])

  pub create_logs-Ends :
      (logs : List BalanceAuditLog) (d : Db)
      → Ends (create_logs c logs d) tt (record d { logs = d.logs ++ logs })
  unfolding create_logs
  create_logs-Ends [] d = inr (rw append-nil refl)
  create_logs-Ends (log ∷ logs) d =
      rw (create_log_lem log d) (elim (Bool-cases (any (log_clashes log) d.logs)) [
        | inl e ↦ rw e (inl (unique_violation, d, refl, refl))
        | inr e ↦ rw e (
            rw (← append_assoc d.logs (log ∷ []) logs)
              (create_logs-Ends logs (record d { logs = d.logs ++ log ∷ [] })))
      ])

  create_logs-ok :
      (logs : List BalanceAuditLog) (d : Db)
      → LogsFresh logs d.logs
      → create_logs c logs d ≡ (ok tt, record d { logs = d.logs ++ logs })
  unfolding create_logs
  create_logs-ok [] d h = rw append-nil refl
  create_logs-ok (log ∷ logs) d h = rw (create_log_lem log d) (
      rw h.0 (
        rw (create_logs-ok logs (record d { logs = d.logs ++ log ∷ [] }) h.1)
          (rw (append_assoc d.logs (log ∷ []) logs))))

  -- The rows of a movement are added, or a unique column refuses one of them.
  pub record_movement-Ends :
      (tx : Transaction) (logs : List BalanceAuditLog) (d : Db)
      → Ends
          (record_movement c tx logs d)
          tx
          (record d { transactions = d.transactions ++ tx ∷ []; logs = d.logs ++ logs })
  unfolding record_movement
  record_movement-Ends tx logs d =
      rw (create_transaction_lem tx d) (elim (Bool-cases (any (clashes tx) d.transactions)) [
        | inl e ↦ rw e (inl (unique_violation, d, refl, refl))
        | inr e ↦ rw e (
            Ends-continue _ _
              (create_logs-Ends logs (record d { transactions = d.transactions ++ tx ∷ [] }))
              (inr refl))
      ])

  -- With fresh ids and a fresh key nothing is refused.
  pub record_movement-ok :
      (tx : Transaction) (logs : List BalanceAuditLog) (d : Db)
      → any (clashes tx) d.transactions ≡ false
      → LogsFresh logs d.logs
      → record_movement c tx logs d
        ≡ (ok tx, record d { transactions = d.transactions ++ tx ∷ []; logs = d.logs ++ logs })
  unfolding record_movement
  record_movement-ok tx logs d free fresh = rw (create_transaction_lem tx d) (
      rw free
        (rw (create_logs-ok logs (record d { transactions = d.transactions ++ tx ∷ [] }) fresh)))

  -- All transactions of a wallet, the latest first.
  abbrev pub history : ℕ → Db → List Transaction
  history id d =
      c.transactions.order_desc (λ tx. tx.created_at) (filter (touches id) d.transactions)

  -- Where no two transactions of the wallet have the same time, each query pages in one order.
  pub find_transactions_by_wallet_lem :
      (id skip size : ℕ) (d : Db)
      → KeysTell (λ tx. tx.created_at) (filter (touches id) d.transactions)
      → find_transactions_by_wallet c id (pos skip) size d
        ≡ (ok (take size (drop skip (history id d))), d)
  unfolding find_transactions_by_wallet
  find_transactions_by_wallet_lem id skip size d tell =
      let (sorted, perm, descends, page) =
        c.transactions.find_page_lem (touches id) (λ tx. tx.created_at) skip size d.transactions in
      let rows = filter (touches id) d.transactions in
      let tells = KeysTell-perm (λ tx. tx.created_at) perm tell in
      let same : sorted ≡ history id d =
        descending_unique (λ tx. tx.created_at) sorted (history id d)
          (Perm.trans perm (Perm.symm (c.transactions.order_desc-perm (λ tx. tx.created_at) rows)))
          descends (c.transactions.order_desc-IsDescending (λ tx. tx.created_at) rows) tells in
      rw page (rw same)

  pub count_transactions_by_wallet_lem :
      (id : ℕ) (d : Db)
      → count_transactions_by_wallet c id d ≡ (ok (length (filter (touches id) d.transactions)), d)
  unfolding count_transactions_by_wallet
  count_transactions_by_wallet_lem id d = rw (c.transactions.count_lem (touches id) d.transactions)

  -- A wallet is created unless its id or its owner's currency is taken.
  pub create_wallet_lem :
      (env : Env) (user_id currency : ℕ) (d : Db)
      → create_wallet c env user_id currency d ≡ (
          if any (λ x. has_id env.uuid x || owned_by user_id currency x) d.wallets
          then (err unique_violation, d)
          else (
            ok (new_wallet env user_id currency),
            record d { wallets = d.wallets ++ new_wallet env user_id currency ∷ [] },
          ))
  unfolding create_wallet
  create_wallet_lem env user_id currency d =
      let clash = any (λ x. has_id env.uuid x || owned_by user_id currency x) d.wallets in
      rw
        (c.wallets.create_lem (λ x. has_id env.uuid x || owned_by user_id currency x)
          (new_wallet env user_id currency) d.wallets)
        (elim (Bool-cases clash) [ inl e ↦ rw e refl | inr e ↦ rw e refl ])
