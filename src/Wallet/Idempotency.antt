-- ===== src/Wallet/Idempotency.antt =====
-- wallet.service.ts, `transfer`: repeated requests.
use nexapay_fintech_super_ap.Common.{==_refl, ap, ◌≡◌, ◌≢◌, ◌∙◌, refl, sym, subst, none, some}
use nexapay_fintech_super_ap.Common.Rows.{find?, find?-append_none}
use nexapay_fintech_super_ap.Common.Action.{cache_unavailable, err, Result, ok}
use nexapay_fintech_super_ap.Wallet.Entities.{Transaction, TransferDto, Env, Clients, State}
use nexapay_fintech_super_ap.Wallet.Repository.{has_key}
use nexapay_fintech_super_ap.Wallet.Service.{transfer}
use nexapay_fintech_super_ap.Wallet.Service.Outcomes.{
  moved, both_cached, answered-ok, TransferOutcome, thrown, replayed, moves,
  transfer-TransferOutcome, transfer-replay,
}

module _ {C : Type 0} (c : Clients C) (env : Env) (dto : TransferDto) where
  -- What a returned transaction leaves in the table.
  TransferOutcome-known :
      {s : State C} (r : Result Transaction × State C) (tx : Transaction)
      → TransferOutcome c env dto s r
      → r.0 ≡ ok tx
      → find? (has_key dto.idempotency_key) r.1.db.transactions ≡ some tx
  TransferOutcome-known _ tx (thrown e h) eq = cc
  TransferOutcome-known _ tx (replayed tx' ne e) eq = cc
  TransferOutcome-known {s} _ tx (moves f t free ne ef et h) eq =
      find?-append_none (has_key dto.idempotency_key) s.db.transactions _ free
      ∙ rw (==_refl dto.idempotency_key) (ap some (answered-ok (both_cached c env dto f t) _ tx eq))

  -- After a transfer that returned a transaction, every request with its key, whatever its amount
  -- and wallets (if these differ), returns that transaction and changes nothing.
  pub transfer-transfer :
      (s : State C) (env' : Env) (dto' : TransferDto) (tx : Transaction)
      → (transfer c env dto s).0 ≡ ok tx
      → dto'.idempotency_key ≡ dto.idempotency_key
      → dto'.from_wallet_id ≢ dto'.to_wallet_id
      → transfer c env' dto' (transfer c env dto s).1 ≡ (ok tx, (transfer c env dto s).1)
  transfer-transfer s env' dto' tx done same ne =
      transfer-replay c env' dto' (transfer c env dto s).1 tx ne (
        subst (λ k. find? (has_key k) (transfer c env dto s).1.db.transactions ≡ some tx) (sym same)
          (TransferOutcome-known (transfer c env dto s) tx (transfer-TransferOutcome c env dto s)
            done))

  TransferOutcome-late :
      {s : State C} (r : Result Transaction × State C)
      → TransferOutcome c env dto s r
      → r.0 ≡ err cache_unavailable
      → (tx : Transaction) × (dto.from_wallet_id ≢ dto.to_wallet_id)
        × (find? (has_key dto.idempotency_key) s.db.transactions ≡ none)
        × (find? (has_key dto.idempotency_key) r.1.db.transactions ≡ some tx)
  TransferOutcome-late _ (thrown e h) eq = cc
  TransferOutcome-late _ (replayed tx ne e) eq = cc
  TransferOutcome-late {s} _ (moves f t free ne ef et h) eq = (
    moved c env dto f t,
    ne,
    free,
    find?-append_none (has_key dto.idempotency_key) s.db.transactions _ free
        ∙ rw (==_refl dto.idempotency_key) refl,
  )

  -- A transfer that throws because Redis does not take a balance has gone through all the same: it
  -- stored a transaction under its key, which had none before, and the same request again, at any
  -- later time, returns that transaction and changes nothing.
  pub transfer_retry :
      (s : State C) (env' : Env)
      → (transfer c env dto s).0 ≡ err cache_unavailable
      → (tx : Transaction) × (find? (has_key dto.idempotency_key) s.db.transactions ≡ none)
        × (find? (has_key dto.idempotency_key) (transfer c env dto s).1.db.transactions ≡ some tx)
        × (transfer c env' dto (transfer c env dto s).1 ≡ (ok tx, (transfer c env dto s).1))
  transfer_retry s env' refused =
      let (tx, ne, free, known) =
        TransferOutcome-late (transfer c env dto s) (transfer-TransferOutcome c env dto s)
          refused in
      (tx, free, known, transfer-replay c env' dto (transfer c env dto s).1 tx ne known)
