-- ===== src/Wallet/Balances.antt =====
-- wallet.service.ts, `transfer` and `topUp`: the balances, in total and wallet by wallet.
use nexapay_fintech_super_ap.Common.{
  Bool, true, false, any, ℕ, ◌+◌, ◌-◌, ◌≤◌, ◌≡◌, ◌≢◌, subst, ◌∙◌, refl, sym, ap, ◌⊎◌, inl, inr,
  false, Option, none, some, List, sum, arith,
}
use nexapay_fintech_super_ap.Common.Rows.{find?, sum-replace, find?-replace_self, find?-holds}
use nexapay_fintech_super_ap.Common.Action.{cache_unavailable, Result, ok, err}
use nexapay_fintech_super_ap.Wallet.Entities.{
  Wallet, Transaction, TransferDto, TopUpDto, Db, Env, Clients, State,
}
use nexapay_fintech_super_ap.Wallet.Repository.{
  transfer_logs, has_key, has_id, set_balance, execute_transfer,
}
use nexapay_fintech_super_ap.Wallet.Repository.Writes.{
  found_again, write_balance, find?-write_balance_other, found_id,
}
use nexapay_fintech_super_ap.Wallet.Repository.Calls.{clashes, LogsFresh}
use nexapay_fintech_super_ap.Wallet.Repository.Transfer.{execute_transfer-TransferSettles}
use nexapay_fintech_super_ap.Wallet.Service.{top_up, transfer}
use nexapay_fintech_super_ap.Wallet.Service.Outcomes.{
  is_late, both_cached, answered, deposited, after_top_up, transfer-ok, moved, TransferOutcome,
  thrown, replayed, moves, after_transfer, transfer-TransferOutcome, TopUpOutcome, deposits,
  top_up-TopUpOutcome,
}
use Prim.Native.String.{String}

-- The money in all wallets.
abbrev pub total : List Wallet → ℕ
total ws = sum (λ w. w.balance) ws

pub total-write_balance :
    (now id balance : ℕ) (ws : List Wallet) {w : Wallet}
    → find? (has_id id) ws ≡ some w
    → total (write_balance now id balance ws) + w.balance ≡ total ws + balance
total-write_balance now id balance ws e =
    sum-replace (λ w. w.balance) (has_id id) (set_balance now balance) ws e

pub find?-write_balance_self :
    (now id balance : ℕ) (ws : List Wallet) {w : Wallet}
    → find? (has_id id) ws ≡ some w
    → find? (has_id id) (write_balance now id balance ws) ≡ some (set_balance now balance w)
find?-write_balance_self now id balance ws e =
    find?-replace_self (has_id id) (set_balance now balance) ws (find?-holds (has_id id) ws e) e

module _ (now from to new_from new_to : ℕ) (ws : List Wallet) {f t : Wallet} (ne : from ≢ to)
    (ef : find? (has_id from) ws ≡ some f) (et : find? (has_id to) ws ≡ some t) where
  -- The two writes of a transfer, as a change of the sum.
  pub total-two_writes :
      total (write_balance now to new_to (write_balance now from new_from ws))
        + f.balance
        + t.balance
      ≡ total ws + new_from + new_to
  total-two_writes = omega (
    arith,
    total-write_balance now from new_from ws ef,
    total-write_balance now to new_to (write_balance now from new_from ws)
        (find?-write_balance_other now from to new_from ws ne ∙ et),
  )

  pub find?-two_writes_from :
      find? (has_id from) (write_balance now to new_to (write_balance now from new_from ws))
      ≡ some (set_balance now new_from f)
  find?-two_writes_from =
      find?-write_balance_other now to from new_to (write_balance now from new_from ws)
        (λ e. ne (sym e))
      ∙ find?-write_balance_self now from new_from ws ef

  pub find?-two_writes_to :
      find? (has_id to) (write_balance now to new_to (write_balance now from new_from ws))
      ≡ some (set_balance now new_to t)
  find?-two_writes_to =
      find?-write_balance_self now to new_to (write_balance now from new_from ws)
        (find?-write_balance_other now from to new_from ws ne ∙ et)

-- A transfer that was handed a copy `to` of the destination's row adds to the total what that
-- copy's balance exceeds the balance in the table, and takes from it what it falls short.
pub execute_transfer-total :
    {C : Type 0} (c : Clients C) (env : Env) (from to : Wallet) (amount currency key : ℕ)
    (description : Option String) (d d' : Db) {tx : Transaction}
    → from.id ≢ to.id
    → execute_transfer c env from to amount currency key description d ≡ (ok tx, d')
    → (t : Wallet) × (find? (has_id to.id) d.wallets ≡ some t)
      × (total d'.wallets + t.balance ≡ total d.wallets + to.balance)
execute_transfer-total c env from to amount currency key description d d' ne e =
    elim (execute_transfer-TransferSettles c env from to amount currency key description ne d) [
      | inl (x, _, failed) ↦ cc (sym failed ∙ e)
      | inr (f, t, ef, et, h, done) ↦ (
        t,
        et,
        subst (λ (x : Db). total x.wallets + t.balance ≡ total d.wallets + to.balance)
            (ap (λ r. r.1) (sym done ∙ e))
            (omega (
              arith,
              total-two_writes env.now from.id to.id (f.balance - amount) (to.balance + amount)
                  d.wallets ne ef et,
            )),
      )
    ]

module _ {C : Type 0} (c : Clients C) (env : Env) (dto : TransferDto) where
  TransferOutcome-total :
      {s : State C} (r : Result Transaction × State C)
      → TransferOutcome c env dto s r
      → total r.1.db.wallets ≡ total s.db.wallets
  TransferOutcome-total _ (thrown e h) = refl
  TransferOutcome-total _ (replayed tx ne e) = refl
  TransferOutcome-total {s} _ (moves f t free ne ef et h) = omega (
    arith,
    total-two_writes env.now f.id t.id (f.balance - dto.amount) (t.balance + dto.amount)
        s.db.wallets
        (λ e. ne (
          sym (found_id dto.from_wallet_id s.db.wallets ef)
          ∙ e
          ∙ found_id dto.to_wallet_id s.db.wallets et))
        (found_again dto.from_wallet_id s.db.wallets ef)
        (found_again dto.to_wallet_id s.db.wallets et),
  )

  -- No run of `transfer` changes the total of all balances.
  pub transfer-total :
      (s : State C) → total (transfer c env dto s).1.db.wallets ≡ total s.db.wallets
  transfer-total s =
      TransferOutcome-total (transfer c env dto s) (transfer-TransferOutcome c env dto s)

  -- What is left of the rows after a transfer of `amount` between the rows `f` and `t`.
  abbrev pub Moved : Wallet → Wallet → List Wallet → Type 0
  Moved f t ws =
      (find? (has_id dto.from_wallet_id) ws ≡ some (set_balance env.now (f.balance - dto.amount) f))
      × (find? (has_id dto.to_wallet_id) ws ≡ some (set_balance env.now (t.balance + dto.amount) t))

  -- A transfer with a new key between two wallets, of an amount that the first one covers, and with
  -- fresh ids for the rows that it adds, returns its transaction where Redis takes both balances; the amount has moved from the one
  -- wallet to the other, and both versions have gone up by one.
  pub transfer-Moved :
      (s : State C) (f t : Wallet)
      → dto.from_wallet_id ≢ dto.to_wallet_id
      → find? (has_id dto.from_wallet_id) s.db.wallets ≡ some f
      → find? (has_id dto.to_wallet_id) s.db.wallets ≡ some t
      → dto.amount ≤ f.balance
      → find? (has_key dto.idempotency_key) s.db.transactions ≡ none
      → any (clashes (moved c env dto f t)) s.db.transactions ≡ false
      → LogsFresh
          (transfer_logs env f.id t.id f.balance t.balance dto.amount dto.idempotency_key)
          s.db.logs
      → both_cached c env dto f t ≡ true
      → ((transfer c env dto s).0 ≡ ok (moved c env dto f t))
        × Moved f t (transfer c env dto s).1.db.wallets
  transfer-Moved s f t ne ef et h free unique fresh cached =
      let gone = transfer-ok c env dto s f t ne ef et h free unique fresh in
      let pf = found_id dto.from_wallet_id s.db.wallets ef in
      let pt = found_id dto.to_wallet_id s.db.wallets et in
      let ne' : f.id ≢ t.id = λ e. ne (sym pf ∙ e ∙ pt) in
      let ef' = found_again dto.from_wallet_id s.db.wallets ef in
      let et' = found_again dto.to_wallet_id s.db.wallets et in
      let ws' = (after_transfer c env dto f t s).db.wallets in
      rw gone (
        ap (λ taken. answered taken (moved c env dto f t)) cached,
        (
          subst (λ i. find? (has_id i) ws' ≡ some (set_balance env.now (f.balance - dto.amount) f))
              pf
              (find?-two_writes_from env.now f.id t.id (f.balance - dto.amount)
                (t.balance + dto.amount) s.db.wallets ne' ef' et'),
          subst (λ i. find? (has_id i) ws' ≡ some (set_balance env.now (t.balance + dto.amount) t))
              pt
              (find?-two_writes_to env.now f.id t.id (f.balance - dto.amount)
                (t.balance + dto.amount) s.db.wallets ne' ef' et'),
        ),
      )

  TransferOutcome-others :
      {s : State C} (r : Result Transaction × State C) (id : ℕ)
      → id ≢ dto.from_wallet_id
      → id ≢ dto.to_wallet_id
      → TransferOutcome c env dto s r
      → find? (has_id id) r.1.db.wallets ≡ find? (has_id id) s.db.wallets
  TransferOutcome-others _ id nf nt (thrown e h) = refl
  TransferOutcome-others _ id nf nt (replayed tx ne e) = refl
  TransferOutcome-others {s} _ id nf nt (moves f t free ne ef et h) =
      find?-write_balance_other env.now t.id id (t.balance + dto.amount) _
        (λ e. nt (sym e ∙ found_id dto.to_wallet_id s.db.wallets et))
      ∙ find?-write_balance_other env.now f.id id (f.balance - dto.amount) s.db.wallets
          (λ e. nf (sym e ∙ found_id dto.from_wallet_id s.db.wallets ef))

  -- A transfer touches no third wallet.
  pub transfer-others :
      (s : State C) (id : ℕ)
      → id ≢ dto.from_wallet_id
      → id ≢ dto.to_wallet_id
      → find? (has_id id) (transfer c env dto s).1.db.wallets ≡ find? (has_id id) s.db.wallets
  transfer-others s id nf nt =
      TransferOutcome-others (transfer c env dto s) id nf nt (transfer-TransferOutcome c env dto s)

module _ {C : Type 0} (c : Clients C) (env : Env) (dto : TopUpDto) where
  -- What a top-up adds to the total: its amount, or nothing if it replays or throws; but the throw
  -- of a cache that does not take the balance comes after the deposit, and is the only one that does.
  abbrev pub Deposits : State C → Result Transaction × State C → Type 0
  Deposits s (ok tx, s') =
      ((find? (has_key dto.idempotency_key) s.db.transactions ≡ some tx) × (s' ≡ s))
      ⊎ ((find? (has_key dto.idempotency_key) s.db.transactions ≡ none)
          × (total s'.db.wallets ≡ total s.db.wallets + dto.amount))
  Deposits s (err e, s') =
      ((is_late e ≡ false) × (s' ≡ s))
      ⊎ ((e ≡ cache_unavailable)
          × (find? (has_key dto.idempotency_key) s.db.transactions ≡ none)
          × (total s'.db.wallets ≡ total s.db.wallets + dto.amount))

  Deposits-answered :
      (taken : Bool) (tx : Transaction) (s s' : State C)
      → find? (has_key dto.idempotency_key) s.db.transactions ≡ none
      → total s'.db.wallets ≡ total s.db.wallets + dto.amount
      → Deposits s (answered taken tx, s')
  Deposits-answered true tx s s' free h = inr (free, h)
  Deposits-answered false tx s s' free h = inr (refl, free, h)

  TopUpOutcome-Deposits :
      {s : State C} (r : Result Transaction × State C) → TopUpOutcome c env dto s r → Deposits s r
  TopUpOutcome-Deposits _ (TopUpOutcome.thrown e h) = inl (h, refl)
  TopUpOutcome-Deposits _ (TopUpOutcome.replayed tx e) = inl (e, refl)
  TopUpOutcome-Deposits {s} _ (deposits w fresh free ew ef) =
      Deposits-answered (env.cache_writes w.id) (deposited c env dto w) s
        (after_top_up c env dto w fresh s) free
        (omega
          (arith, total-write_balance env.now w.id (fresh.balance + dto.amount) s.db.wallets ef))

  -- A top-up with a new key that returns raises the total of all balances by its amount, a replay
  -- changes nothing, and so does a throw, unless it is that of Redis after a deposit with a new key,
  -- which has raised the total by the amount.
  pub top_up-Deposits : (s : State C) → Deposits s (top_up c env dto s)
  top_up-Deposits s = TopUpOutcome-Deposits (top_up c env dto s) (top_up-TopUpOutcome c env dto s)
