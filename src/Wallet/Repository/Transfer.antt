-- ===== src/Wallet/Repository/Transfer.antt =====
-- wallet.repository.ts, `executeTransfer`: how the database transaction can end.
use nexapay_fintech_super_ap.Common.{
  false, any, true, ℕ, ◌+◌, ◌-◌, ◌≤◌, ◌≡◌, ◌≢◌, refl, ◌∙◌, ◌⊎◌, inl, inr, Option, none, some, [],
  ◌∷◌, ◌++◌, ltb, arith, Bool-cases, Option-cases, ==_refl, le→not-ltb,
}
use nexapay_fintech_super_ap.Common.Rows.{find?}
use nexapay_fintech_super_ap.Common.Action.{
  Result, ok, err, Exception, insufficient_balance, destination_missing,
}
use nexapay_fintech_super_ap.Wallet.Entities.{Wallet, Transaction, Db, Env, Clients}
use nexapay_fintech_super_ap.Wallet.Repository.{
  record_movement, has_id, transfer_transaction, transfer_logs, transfer_body, execute_transfer,
}
use nexapay_fintech_super_ap.Wallet.Repository.Calls.{
  record_movement-ok, LogsFresh, clashes, Ends, is_refusal, find_wallet_by_id_lem,
  record_movement-Ends,
}
use Prim.Native.String.{String}
use nexapay_fintech_super_ap.Wallet.Repository.Writes.{
  write_balance, update_at_version, find?-write_balance_other,
}

module _ (env : Env) (from to : Wallet) (amount currency key : ℕ)
    (description : Option String) where
  -- The database after a transfer whose fresh source is `f`.
  abbrev pub transferred : Wallet → Db → Db
  transferred f d = record {
    wallets =
        write_balance env.now to.id (to.balance + amount)
          (write_balance env.now from.id (f.balance - amount) d.wallets);
    transactions =
        d.transactions ++ transfer_transaction env from to amount currency key description ∷ [];
    logs = d.logs ++ transfer_logs env from.id to.id f.balance to.balance amount key;
  }

  abbrev TransferEnds : Result Transaction × Db → Db → Type 0
  TransferEnds r d =
      ((e : Exception) × (d' : Db) × (is_refusal e ≡ true) × (r ≡ (err e, d')))
      ⊎ ((f t : Wallet) × (find? (has_id from.id) d.wallets ≡ some f)
          × (find? (has_id to.id) d.wallets ≡ some t)
          × (amount ≤ f.balance)
          × (r ≡ (
            ok (transfer_transaction env from to amount currency key description),
            transferred f d,
          )))

  -- A transfer either throws, with a refusal, and changes nothing; or it found both
  -- wallets, the source covers the amount, and the database is as above.
  abbrev pub TransferSettles : Result Transaction × Db → Db → Type 0
  TransferSettles r d =
      ((e : Exception) × (is_refusal e ≡ true) × (r ≡ (err e, d)))
      ⊎ ((f t : Wallet) × (find? (has_id from.id) d.wallets ≡ some f)
          × (find? (has_id to.id) d.wallets ≡ some t)
          × (amount ≤ f.balance)
          × (r ≡ (
            ok (transfer_transaction env from to amount currency key description),
            transferred f d,
          )))

module _ {C : Type 0} (c : Clients C) (env : Env) (from to : Wallet) (amount currency key : ℕ)
    (description : Option String) (ne : from.id ≢ to.id) where
  -- With both wallets found and the amount covered, what is left is to record the movement.
  transfer_body_lem :
      (d : Db) (f t : Wallet)
      → find? (has_id from.id) d.wallets ≡ some f
      → find? (has_id to.id) d.wallets ≡ some t
      → amount ≤ f.balance
      → transfer_body c env from to amount currency key description d
        ≡ record_movement c
            (transfer_transaction env from to amount currency key description)
            (transfer_logs env from.id to.id f.balance to.balance amount key)
            (record d {
              wallets =
                  write_balance env.now to.id
                    (to.balance + amount)
                    (write_balance env.now from.id (f.balance - amount) d.wallets);
            })
  unfolding transfer_body
  transfer_body_lem d f t ef et h =
      let ws = write_balance env.now from.id (f.balance - amount) d.wallets in
      let other =
        find?-write_balance_other env.now from.id to.id (f.balance - amount) d.wallets ne ∙ et in
      rw (find_wallet_by_id_lem c from.id d) (
        rw ef (
          rw (le→not-ltb f.balance amount h) (
            rw (update_at_version c from.id env.now (f.balance - amount) d ef) (
              rw (==_refl (f.version + 1)) (
                rw (find_wallet_by_id_lem c to.id (record d { wallets = ws })) (
                  rw other (
                    rw (
                      update_at_version c to.id env.now (to.balance + amount)
                        (record d { wallets = ws }) {w = t} other))))))))

  transfer_body-Ends :
      (d : Db) (f t : Wallet)
      → find? (has_id from.id) d.wallets ≡ some f
      → find? (has_id to.id) d.wallets ≡ some t
      → amount ≤ f.balance
      → Ends
          (transfer_body c env from to amount currency key description d)
          (transfer_transaction env from to amount currency key description)
          (transferred env from to amount currency key description f d)
  transfer_body-Ends d f t ef et h =
      rw (transfer_body_lem d f t ef et h) (record_movement-Ends c _ _ _)

  -- With fresh ids and a fresh key it goes through.
  pub execute_transfer-ok :
      (d : Db) (f t : Wallet)
      → find? (has_id from.id) d.wallets ≡ some f
      → find? (has_id to.id) d.wallets ≡ some t
      → amount ≤ f.balance
      → any
          (clashes (transfer_transaction env from to amount currency key description))
          d.transactions
        ≡ false
      → LogsFresh (transfer_logs env from.id to.id f.balance to.balance amount key) d.logs
      → execute_transfer c env from to amount currency key description d ≡ (
        ok (transfer_transaction env from to amount currency key description),
        transferred env from to amount currency key description f d,
      )
  unfolding execute_transfer
  execute_transfer-ok d f t ef et h free fresh =
      rw (c.transaction_lem (transfer_body c env from to amount currency key description) d) (
        rw (transfer_body_lem d f t ef et h) (
          rw (
            record_movement-ok c (transfer_transaction env from to amount currency key description)
              (transfer_logs env from.id to.id f.balance to.balance amount key)
              (record d {
                wallets =
                    write_balance env.now to.id (to.balance + amount)
                      (write_balance env.now from.id (f.balance - amount) d.wallets);
              })
              free fresh)))

  transfer_body-missing :
      (d : Db) (f : Wallet)
      → find? (has_id from.id) d.wallets ≡ some f
      → amount ≤ f.balance
      → find? (has_id to.id) d.wallets ≡ none
      → transfer_body c env from to amount currency key description d ≡ (
        err destination_missing,
        record d { wallets = write_balance env.now from.id (f.balance - amount) d.wallets },
      )
  unfolding transfer_body
  transfer_body-missing d f ef h missing =
      let ws = write_balance env.now from.id (f.balance - amount) d.wallets in
      let other =
        find?-write_balance_other env.now from.id to.id (f.balance - amount) d.wallets ne
        ∙ missing in
      rw (find_wallet_by_id_lem c from.id d) (
        rw ef (
          rw (le→not-ltb f.balance amount h) (
            rw (update_at_version c from.id env.now (f.balance - amount) d ef) (
              rw (==_refl (f.version + 1))
                (rw (find_wallet_by_id_lem c to.id (record d { wallets = ws })) (rw other))))))

  transfer_body-TransferEnds :
      (d : Db)
      → TransferEnds env from to amount currency key description
          (transfer_body c env from to amount currency key description d)
          d
  unfolding transfer_body
  transfer_body-TransferEnds d = elim (Option-cases (find? (has_id from.id) d.wallets)) [
    | inl missing ↦
        inl (insufficient_balance, d, refl, rw (find_wallet_by_id_lem c from.id d) (rw missing))
    | inr (f, ef) ↦ elim (Bool-cases (ltb f.balance amount)) [
      | inl short ↦
          inl (
            insufficient_balance,
            d,
            refl,
            rw (find_wallet_by_id_lem c from.id d) (rw ef (rw short)),
          )
      | inr enough ↦ elim (Option-cases (find? (has_id to.id) d.wallets)) [
        | inl missing ↦
            inl (destination_missing, _, refl, transfer_body-missing d f ef (ground arith) missing)
        | inr (t, et) ↦ elim (transfer_body-Ends d f t ef et (ground arith)) [
          | inl failed ↦ inl failed
          | inr done ↦ inr (f, t, ef, et, ground arith, done)
        ]
      ]
    ]
  ]

  -- `executeTransfer` between two wallets never reports a version conflict: it rolls back on
  -- another exception, or it leaves the database as `transferred` says.
  pub execute_transfer-TransferSettles :
      (d : Db)
      → TransferSettles env from to amount currency key description
          (execute_transfer c env from to amount currency key description d)
          d
  unfolding execute_transfer
  execute_transfer-TransferSettles d =
      rw (c.transaction_lem (transfer_body c env from to amount currency key description) d)
        (elim (transfer_body-TransferEnds d) [
          | inl (e, d', ne', eq) ↦ inl (e, ne', rw eq)
          | inr (f, t, ef, et, h, eq) ↦ inr (f, t, ef, et, h, rw eq)
        ])
