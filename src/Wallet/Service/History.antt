-- ===== src/Wallet/Service/History.antt =====
-- wallet.service.ts, `getTransactions`: the pages of a wallet's history.
use nexapay_fintech_super_ap.Common.Order.{KeysTell}
use nexapay_fintech_super_ap.Common.{
  ap, ℕ, suc, ◌+◌, ◌*◌, ◌≤◌, ◌≡◌, refl, some, List, [], ◌∷◌, ◌++◌, map, arith, length, take, drop,
  filter, length-take, take-append-take-drop,
}
use nexapay_fintech_super_ap.Common.Rows.{find?}
use nexapay_fintech_super_ap.Common.Action.{ok}
use nexapay_fintech_super_ap.Wallet.Entities.{Wallet, Transaction, Db, Clients, State}
use nexapay_fintech_super_ap.Wallet.Repository.{has_id, touches}
use nexapay_fintech_super_ap.Wallet.Repository.Calls.{
  history, find_wallet_by_id_lem, find_transactions_by_wallet_lem, count_transactions_by_wallet_lem,
}
use nexapay_fintech_super_ap.Wallet.Service.{Page, map_transaction, get_transactions}

map-map_transaction : (txs : List Transaction) → map map_transaction txs ≡ txs
unfolding map_transaction
map-map_transaction [] = refl
map-map_transaction (tx ∷ txs) = ap (λ r. tx ∷ r) (map-map_transaction txs)

-- No two transactions of the wallet have the same time.
abbrev pub TimesDiffer : ℕ → Db → Type 0
TimesDiffer id d = KeysTell (λ tx. tx.created_at) (filter (touches id) d.transactions)

module _ {C : Type 0} (c : Clients C) (id : ℕ) where
  -- Where no two transactions of an existing wallet were created at the same time, page `k + 1` of it
  -- is returned, and changes nothing: it goes on in the history
  -- just where the first `k` pages end, it has at most `limit` rows, and the total counts them all.
  pub get_transactions_tiles :
      (s : State C) (k limit : ℕ) {w : Wallet}
      → find? (has_id id) s.db.wallets ≡ some w
      → TimesDiffer id s.db
      → (p : Page) × (get_transactions c id (suc k) limit s ≡ (ok p, s))
        × (take (k * limit) (history c id s.db) ++ p.rows
            ≡ take (k * limit + limit) (history c id s.db))
        × (length p.rows ≤ limit)
        × (p.total ≡ length (filter (touches id) s.db.transactions))
  unfolding get_transactions
  get_transactions_tiles s k limit e differ = (
    record {
      rows = take limit (drop (k * limit) (history c id s.db));
      total = length (filter (touches id) s.db.transactions);
      page = suc k;
      limit = limit;
    },
    rw (find_wallet_by_id_lem c id s.db) (
        rw e (
          rw (find_transactions_by_wallet_lem c id (k * limit) limit s.db differ)
            (rw (count_transactions_by_wallet_lem c id s.db) (rw map-map_transaction)))),
    take-append-take-drop (k * limit) limit (history c id s.db),
    omega (arith, length-take limit (drop (k * limit) (history c id s.db))),
    refl,
  )
