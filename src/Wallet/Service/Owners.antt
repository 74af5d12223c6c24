-- ===== src/Wallet/Service/Owners.antt =====
-- wallet.service.ts, `createWallet`: wallets and their owners.
use nexapay_fintech_super_ap.Common.{
  ℕ, ◌≡◌, refl, sym, ◌∙◌, ap, Bool, true, false, ◌||◌, none, some, [], ◌∷◌, ◌++◌, any, or_else,
  if◌then◌else◌, ==_refl, Bool-cases, Option-cases, inl, inr,
}
use nexapay_fintech_super_ap.Common.Rows.{find?, find?-append_none}
use nexapay_fintech_super_ap.Common.Action.{ok, err, conflict, unique_violation, cache_unavailable}
use nexapay_fintech_super_ap.Wallet.Entities.{Wallet, CreateWalletDto, Env, Clients, State}
use nexapay_fintech_super_ap.Wallet.Repository.{owned_by, has_id, new_wallet}
use nexapay_fintech_super_ap.Wallet.Repository.Calls.{find_wallet_lem, create_wallet_lem}
use nexapay_fintech_super_ap.Wallet.Service.{usd, create_wallet_for, cache_balance}

-- The currency that a request means.
abbrev pub currency_of : CreateWalletDto → ℕ
currency_of dto = or_else dto.currency usd

module _ {C : Type 0} (c : Clients C) where
  create_wallet_for-taken :
      (env : Env) (dto : CreateWalletDto) (s : State C) {w : Wallet}
      → find? (owned_by dto.user_id (currency_of dto)) s.db.wallets ≡ some w
      → create_wallet_for c env dto s ≡ (err conflict, s)
  unfolding create_wallet_for
  create_wallet_for-taken env dto s e =
      rw (find_wallet_lem c dto.user_id (currency_of dto) s.db) (rw e refl)

  -- The rows that a new wallet may not meet.
  abbrev pub taken : Env → CreateWalletDto → State C → Bool
  taken env dto s =
      any (λ x. has_id env.uuid x || owned_by dto.user_id (currency_of dto) x) s.db.wallets

  create_wallet_for-clash :
      (env : Env) (dto : CreateWalletDto) (s : State C)
      → find? (owned_by dto.user_id (currency_of dto)) s.db.wallets ≡ none
      → taken env dto s ≡ true
      → create_wallet_for c env dto s ≡ (err unique_violation, s)
  unfolding create_wallet_for
  create_wallet_for-clash env dto s e clash =
      rw (find_wallet_lem c dto.user_id (currency_of dto) s.db)
        (rw e (rw (create_wallet_lem c env dto.user_id (currency_of dto) s.db) (rw clash refl)))

  pub create_wallet_for-free :
      (env : Env) (dto : CreateWalletDto) (s : State C)
      → find? (owned_by dto.user_id (currency_of dto)) s.db.wallets ≡ none
      → taken env dto s ≡ false
      → ((create_wallet_for c env dto s).0 ≡ (
          if env.cache_writes env.uuid
          then ok (new_wallet env dto.user_id (currency_of dto))
          else err cache_unavailable))
        × ((create_wallet_for c env dto s).1.db.wallets
            ≡ s.db.wallets ++ new_wallet env dto.user_id (currency_of dto) ∷ [])
  unfolding create_wallet_for cache_balance
  create_wallet_for-free env dto s e free =
      rw (find_wallet_lem c dto.user_id (currency_of dto) s.db) (
        rw e (
          rw (create_wallet_lem c env dto.user_id (currency_of dto) s.db) (
            rw free (elim (Bool-cases (env.cache_writes env.uuid)) [
              | inl taken ↦ rw taken (refl, refl)
              | inr refused ↦ rw refused (refl, refl)
            ]))))

  create_wallet_for-wallets :
      (env : Env) (dto : CreateWalletDto) (s s' : State C) {w : Wallet}
      → create_wallet_for c env dto s ≡ (ok w, s')
      → (find? (owned_by dto.user_id (currency_of dto)) s.db.wallets ≡ none)
        × (s'.db.wallets ≡ s.db.wallets ++ new_wallet env dto.user_id (currency_of dto) ∷ [])
  create_wallet_for-wallets env dto s s' {w} e =
      elim (Option-cases (find? (owned_by dto.user_id (currency_of dto)) s.db.wallets)) [
        | inl before ↦ elim (Bool-cases (taken env dto s)) [
          | inl clash ↦ let h = sym (create_wallet_for-clash env dto s before clash) ∙ e in cc
          | inr free ↦ (
            before,
            ap (λ r. r.1.db.wallets) (sym e) ∙ (create_wallet_for-free env dto s before free).1,
          )
        ]
        | inr (x, found) ↦ let h = sym (create_wallet_for-taken env dto s found) ∙ e in cc
      ]

  -- A user has at most one wallet of a currency: after a creation that succeeds, every other one
  -- for the same user and currency, given or 'USD' by default, throws a conflict and changes
  -- nothing.
  pub create_wallet_for-create_wallet_for :
      (env env' : Env) (dto dto' : CreateWalletDto) (s s' : State C) {w : Wallet}
      → create_wallet_for c env dto s ≡ (ok w, s')
      → dto'.user_id ≡ dto.user_id
      → or_else dto'.currency usd ≡ or_else dto.currency usd
      → create_wallet_for c env' dto' s' ≡ (err conflict, s')
  create_wallet_for-create_wallet_for env env' dto dto' s s' {w} e user currency =
      let (none_before, rows) = create_wallet_for-wallets env dto s s' {w = w} e in
      create_wallet_for-taken env' dto' s' {w = new_wallet env dto.user_id (currency_of dto)} (
        rw user (
          rw currency (
            rw rows (
              find?-append_none (owned_by dto.user_id (currency_of dto)) s.db.wallets _ none_before
              ∙ rw (==_refl dto.user_id) (rw (==_refl (currency_of dto)) refl)))))
