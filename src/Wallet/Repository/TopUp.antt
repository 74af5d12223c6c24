-- ===== src/Wallet/Repository/TopUp.antt =====
-- wallet.repository.ts, `executeTopUp`: how the database transaction can end.
use nexapay_fintech_super_ap.Common.{
  true, ℕ, ◌+◌, ◌≡◌, refl, ◌⊎◌, inl, inr, Option, some, [], ◌∷◌, ◌++◌, Option-cases, ==_refl,
}
use nexapay_fintech_super_ap.Common.Rows.{find?}
use nexapay_fintech_super_ap.Common.Int.{pos}
use nexapay_fintech_super_ap.Common.Action.{Result, ok, err, Exception, wallet_missing}
use nexapay_fintech_super_ap.Wallet.Entities.{Operation, Wallet, Transaction, Db, Env, Clients}
use nexapay_fintech_super_ap.Wallet.Repository.{
  has_id, top_up_transaction, audit_log, top_up_body, execute_top_up,
}
use nexapay_fintech_super_ap.Wallet.Repository.Calls.{
  Ends, is_refusal, find_wallet_by_id_lem, record_movement-Ends,
}
use Prim.Native.String.{String}
use nexapay_fintech_super_ap.Wallet.Repository.Writes.{write_balance, update_at_version}

module _ (env : Env) (id amount currency key : ℕ) (description : Option String) where
  -- The database after a top-up of a wallet whose row is `w`.
  abbrev pub topped_up : Wallet → Db → Db
  topped_up w d = record {
    wallets = write_balance env.now id (w.balance + amount) d.wallets;
    transactions = d.transactions ++ top_up_transaction env id amount currency key description ∷ [];
    logs =
        d.logs
        ++ audit_log env.log_uuid env id w.balance (w.balance + amount) (pos amount) env.uuid
            Operation.top_up key
          ∷ [];
  }

  abbrev pub TopUpSettles : Result Transaction × Db → Db → Type 0
  TopUpSettles r d =
      ((e : Exception) × (is_refusal e ≡ true) × (r ≡ (err e, d)))
      ⊎ ((w : Wallet) × (find? (has_id id) d.wallets ≡ some w)
          × (r ≡ (ok (top_up_transaction env id amount currency key description), topped_up w d)))

  abbrev TopUpEnds : Result Transaction × Db → Db → Type 0
  TopUpEnds r d =
      ((e : Exception) × (d' : Db) × (is_refusal e ≡ true) × (r ≡ (err e, d')))
      ⊎ ((w : Wallet) × (find? (has_id id) d.wallets ≡ some w)
          × (r ≡ (ok (top_up_transaction env id amount currency key description), topped_up w d)))

module _ {C : Type 0} (c : Clients C) (env : Env) (id amount currency key : ℕ)
    (description : Option String) where
  top_up_body-Ends :
      (d : Db) (w : Wallet)
      → find? (has_id id) d.wallets ≡ some w
      → Ends
          (top_up_body c env id amount currency key description d)
          (top_up_transaction env id amount currency key description)
          (topped_up env id amount currency key description w d)
  unfolding top_up_body
  top_up_body-Ends d w e = rw (find_wallet_by_id_lem c id d) (
      rw e (
        rw (update_at_version c id env.now (w.balance + amount) d e) (
          rw (==_refl (w.version + 1)) (
            record_movement-Ends c _ _
              (record d { wallets = write_balance env.now id (w.balance + amount) d.wallets })))))

  top_up_body-TopUpEnds :
      (d : Db)
      → TopUpEnds env id amount currency key description
          (top_up_body c env id amount currency key description d)
          d
  unfolding top_up_body
  top_up_body-TopUpEnds d = elim (Option-cases (find? (has_id id) d.wallets)) [
    | inl missing ↦ inl (wallet_missing, d, refl, rw (find_wallet_by_id_lem c id d) (rw missing))
    | inr (w, e) ↦ elim (top_up_body-Ends d w e) [
      | inl failed ↦ inl failed
      | inr done ↦ inr (w, e, done)
    ]
  ]

  -- `executeTopUp` rolls back, and with a refusal, or leaves the database as
  -- `topped_up` says.
  pub execute_top_up-TopUpSettles :
      (d : Db)
      → TopUpSettles env id amount currency key description
          (execute_top_up c env id amount currency key description d)
          d
  unfolding execute_top_up
  execute_top_up-TopUpSettles d =
      rw (c.transaction_lem (top_up_body c env id amount currency key description) d)
        (elim (top_up_body-TopUpEnds d) [
          | inl (e, d', ne', eq) ↦ inl (e, ne', rw eq)
          | inr (w, ew, eq) ↦ inr (w, ew, rw eq)
        ])
