-- ===== src/Wallet/Repository/Writes.antt =====
-- wallet.repository.ts: a versioned write to the row that was just read.
use nexapay_fintech_super_ap.Common.{◌∙◌, ap, ℕ, ◌≡◌, ◌≢◌, true, some, List, arith}
use nexapay_fintech_super_ap.Common.Rows.{
  find?, replace, find?-holds, find?-sharper, replace-sharper, find?-replace_other,
}
use nexapay_fintech_super_ap.Common.Action.{ok}
use nexapay_fintech_super_ap.Wallet.Entities.{Wallet, Db, Clients}
use nexapay_fintech_super_ap.Wallet.Repository.{has_id, at_version, set_balance, update_wallet}
use nexapay_fintech_super_ap.Wallet.Repository.Calls.{update_wallet-some}

-- The rows of the wallets with one balance written.
abbrev pub write_balance : ℕ → ℕ → ℕ → List Wallet → List Wallet
write_balance now id balance ws = replace (has_id id) (set_balance now balance) ws

-- The write at the version that was just read changes the row that was read.
pub update_at_version :
    {C : Type 0} (c : Clients C) (id now balance : ℕ) (d : Db) {w : Wallet}
    → find? (has_id id) d.wallets ≡ some w
    → update_wallet c (at_version id w.version) (set_balance now balance) d ≡ (
      ok (set_balance now balance w),
      record d { wallets = write_balance now id balance d.wallets },
    )
update_at_version c id now balance d {w} e =
    rw
      (update_wallet-some c (at_version id w.version) (set_balance now balance) d
        (find?-sharper (has_id id) (at_version id w.version) d.wallets sharp same e))
      (rw (
        replace-sharper (has_id id) (at_version id w.version) (set_balance now balance) d.wallets
          sharp same e))
  where
    sharp : (x : Wallet) → at_version id w.version x ≡ true → has_id id x ≡ true
    sharp x h = ground arith

    same : at_version id w.version w ≡ true
    same = ground (arith, find?-holds (has_id id) d.wallets e)

-- Writing one wallet leaves another as it was.
pub find?-write_balance_other :
    (now id other balance : ℕ) (ws : List Wallet)
    → id ≢ other
    → find? (has_id other) (write_balance now id balance ws) ≡ find? (has_id other) ws
find?-write_balance_other now id other balance ws ne =
    find?-replace_other (has_id id) (has_id other) (set_balance now balance) ws
      (λ x h. ground arith) (λ x h. ground arith)

-- The row that is found under an id has that id.
pub found_id : (id : ℕ) (ws : List Wallet) {w : Wallet} → find? (has_id id) ws ≡ some w → w.id ≡ id
found_id id ws e = ground (arith, find?-holds (has_id id) ws e)

pub found_again :
    (id : ℕ) (ws : List Wallet) {w : Wallet}
    → find? (has_id id) ws ≡ some w
    → find? (has_id w.id) ws ≡ some w
found_again id ws e = ap (λ i. find? (has_id i) ws) (found_id id ws e) ∙ e
