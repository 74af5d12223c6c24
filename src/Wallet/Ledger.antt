-- ===== src/Wallet/Ledger.antt =====
-- wallet.service.ts, `transfer` and `topUp`: the audit log against the balances.
use nexapay_fintech_super_ap.Common.{
  ne_of_not-==, eq_of_==, ℕ, zero, suc, ◌+◌, ◌-◌, ◌≤◌, ◌≡◌, ◌≢◌, ◌∙◌, refl, sym, ap, subst, Option,
  none, some, List, ◌==◌, arith, sum, sum-append, Bool-cases, inl, inr, if◌then◌else◌,
}
use nexapay_fintech_super_ap.Common.Int.{neg, pos_part, neg_part}
use nexapay_fintech_super_ap.Common.Rows.{find?}
use nexapay_fintech_super_ap.Common.Action.{Result}
use nexapay_fintech_super_ap.Wallet.Entities.{
  Wallet, Transaction, BalanceAuditLog, TransferDto, TopUpDto, Db, Env, Clients, State,
}
use nexapay_fintech_super_ap.Wallet.Repository.{has_id}
use nexapay_fintech_super_ap.Wallet.Repository.Writes.{
  write_balance, find?-write_balance_other, found_id, found_again,
}
use nexapay_fintech_super_ap.Wallet.Balances.{find?-write_balance_self}
use nexapay_fintech_super_ap.Wallet.Service.{top_up, transfer}
use nexapay_fintech_super_ap.Wallet.Service.Outcomes.{
  TransferOutcome, thrown, replayed, moves, transfer-TransferOutcome, TopUpOutcome, deposits,
  top_up-TopUpOutcome,
}

abbrev pub credit_to : ℕ → BalanceAuditLog → ℕ
credit_to id log = if log.wallet_id == id then pos_part log.change_amount else 0

abbrev pub debit_from : ℕ → BalanceAuditLog → ℕ
debit_from id log = if log.wallet_id == id then neg_part log.change_amount else 0

abbrev pub balance_of : Option Wallet → ℕ
balance_of none = 0
balance_of (some w) = w.balance

-- The audit log accounts for the balance of every wallet, and for none where there is no wallet.
abbrev pub Accounts : Db → Type 0
Accounts d =
    (id : ℕ)
    → sum (credit_to id) d.logs
      ≡ sum (debit_from id) d.logs + balance_of (find? (has_id id) d.wallets)

neg_parts : (n : ℕ) → (pos_part (neg n) ≡ 0) × (neg_part (neg n) ≡ n)
neg_parts zero = (refl, refl)
neg_parts (suc n) = (refl, refl)

balance-write_balance :
    (now id other balance : ℕ) (ws : List Wallet) {w : Wallet}
    → find? (has_id id) ws ≡ some w
    → balance_of (find? (has_id other) (write_balance now id balance ws))
      ≡ (if id == other then balance else balance_of (find? (has_id other) ws))
balance-write_balance now id other balance ws e = elim (Bool-cases (id == other)) [
  | inl same ↦
      rw same (rw (← eq_of_== id other same) (rw (find?-write_balance_self now id balance ws e)))
  | inr differ ↦
      rw differ
        (rw (find?-write_balance_other now id other balance ws (ne_of_not-== id other differ)))
]

module _ {C : Type 0} (c : Clients C) (env : Env) (dto : TransferDto) where
  TransferOutcome-Accounts :
      {s : State C} (r : Result Transaction × State C)
      → TransferOutcome c env dto s r
      → Accounts s.db
      → Accounts r.1.db
  TransferOutcome-Accounts _ (thrown e h) a = a
  TransferOutcome-Accounts _ (replayed tx ne e) a = a
  TransferOutcome-Accounts {s} _ (moves f t free ne ef et h) a = λ id.
      let pf = found_id dto.from_wallet_id s.db.wallets ef in
      let pt = found_id dto.to_wallet_id s.db.wallets et in
      let ne' : f.id ≢ t.id = λ e. ne (sym pf ∙ e ∙ pt) in
      let ef' = found_again dto.from_wallet_id s.db.wallets ef in
      let et' = found_again dto.to_wallet_id s.db.wallets et in
      let ws = write_balance env.now f.id (f.balance - dto.amount) s.db.wallets in
      let b1 = balance-write_balance env.now f.id id (f.balance - dto.amount) s.db.wallets ef' in
      let b2 = balance-write_balance env.now t.id id (t.balance + dto.amount) ws (
        find?-write_balance_other env.now f.id t.id (f.balance - dto.amount) s.db.wallets ne'
        ∙ et') in
      let zeros = neg_parts dto.amount in
      rw (sum-append, sum-append)
        (settled f.id t.id id (sum (credit_to id) s.db.logs) (sum (debit_from id) s.db.logs)
          dto.amount f.balance t.balance (pos_part (neg dto.amount)) (neg_part (neg dto.amount)) _ _
          _ zeros.0 zeros.1 (a id) b1 b2 ne' h
          (λ e.
            subst (λ i. balance_of (find? (has_id i) s.db.wallets) ≡ f.balance) e
              (ap balance_of ef'))
          (λ e.
            subst (λ i. balance_of (find? (has_id i) s.db.wallets) ≡ t.balance) e
              (ap balance_of et')))
    where
      settled :
          (fid tid id cr de amount fb tb p n now mid before : ℕ)
          → p ≡ 0
          → n ≡ amount
          → cr ≡ de + before
          → mid ≡ (if fid == id then fb - amount else before)
          → now ≡ (if tid == id then tb + amount else mid)
          → fid ≢ tid
          → amount ≤ fb
          → (fid ≡ id → before ≡ fb)
          → (tid ≡ id → before ≡ tb)
          → cr + ((if fid == id then p else 0) + ((if tid == id then amount else 0) + 0))
            ≡ de + ((if fid == id then n else 0) + ((if tid == id then 0 else 0) + 0)) + now
      settled fid tid id cr de amount fb tb p n now mid before hp hn k hm hw ne'' h' sf st =
          ground arith

  -- If in the audit log the credits of every wallet are its debits and its balance, they are so
  -- after every run of `transfer`.
  pub transfer-Accounts : (s : State C) → Accounts s.db → Accounts (transfer c env dto s).1.db
  transfer-Accounts s a =
      TransferOutcome-Accounts (transfer c env dto s) (transfer-TransferOutcome c env dto s) a

module _ {C : Type 0} (c : Clients C) (env : Env) (dto : TopUpDto) where
  TopUpOutcome-Accounts :
      {s : State C} (r : Result Transaction × State C)
      → TopUpOutcome c env dto s r
      → Accounts s.db
      → Accounts r.1.db
  TopUpOutcome-Accounts _ (TopUpOutcome.thrown e h) a = a
  TopUpOutcome-Accounts _ (TopUpOutcome.replayed tx e) a = a
  TopUpOutcome-Accounts {s} _ (deposits w fresh free ew ef) a = λ id.
      let b = balance-write_balance env.now w.id id (fresh.balance + dto.amount) s.db.wallets ef in
      rw (sum-append, sum-append)
        (topped w.id id (sum (credit_to id) s.db.logs) (sum (debit_from id) s.db.logs) dto.amount
          fresh.balance _ _ (a id) b
          (λ e.
            subst (λ i. balance_of (find? (has_id i) s.db.wallets) ≡ fresh.balance) e
              (ap balance_of ef)))
    where
      topped :
          (wid id cr de amount fresh now before : ℕ)
          → cr ≡ de + before
          → now ≡ (if wid == id then fresh + amount else before)
          → (wid ≡ id → before ≡ fresh)
          → cr + ((if wid == id then amount else 0) + 0)
            ≡ de + ((if wid == id then 0 else 0) + 0) + now
      topped wid id cr de amount fresh now before h k same = ground arith

  -- If in the audit log the credits of every wallet are its debits and its balance, they are so
  -- after every run of `topUp`.
  pub top_up-Accounts : (s : State C) → Accounts s.db → Accounts (top_up c env dto s).1.db
  top_up-Accounts s a =
      TopUpOutcome-Accounts (top_up c env dto s) (top_up-TopUpOutcome c env dto s) a
