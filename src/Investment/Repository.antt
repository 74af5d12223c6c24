-- ===== src/Investment/Repository.antt =====
-- investment.repository.ts: the queries and writes of `InvestmentRepository`. The mongo calls that
-- build indexes at the start are left out.
pub mod Calls
use nexapay_fintech_super_ap.Common.{
  filter, ℕ, Bool, true, false, ◌&&◌, Option, none, some, List, [], ◌∷◌, ◌++◌, ◌==◌, leb, take, map,
}
use mathlib.Core.Option
use nexapay_fintech_super_ap.Common.Int.{ℤ}
use nexapay_fintech_super_ap.Common.Action.{
  Action, ◌>>=◌, ◌>>◌, pure, gets, modify, or_throw, validation_failed, cast_failed,
}
use nexapay_fintech_super_ap.Investment.Entities.{
  ProductType, RiskLevel, ProductEntity, ProductRow, InvestmentStatus, Investment, PriceFeed,
  ProductFilters, State, Clients, Env, same_type, same_risk, is_active,
}

abbrev pub has_product : ℕ → ProductRow → Bool
has_product id p = p.entity.id == id

abbrev pub has_id : ℕ → Investment → Bool
has_id id i = i.id == id

abbrev pub of_user : ℕ → Investment → Bool
of_user user_id i = i.user_id == user_id

-- ACTIVE, and due by now.
abbrev pub is_due : ℕ → Investment → Bool
is_due now i = is_active i.status && leb i.maturity_date now

-- A filter that is not given picks every row.
abbrev pub matches : ProductFilters → ProductRow → Bool
matches filters p =
    elim filters.type_ [ none ↦ true | some t ↦ same_type p.entity.type_ t ]
    && elim filters.risk_level [ none ↦ true | some r ↦ same_risk p.entity.risk_level r ]

abbrev pub set_status : InvestmentStatus → ℤ → Investment → Investment
set_status status returns i = record i { status = status; returns = returns }

module _ (c : Clients) where
  pub find_all_products : ProductFilters → Action State (List ProductEntity)
  find_all_products filters = gets (λ s.
      map (λ p. p.entity)
        (c.products.order_desc (λ p. p.created_at)
          (c.products.find_many (matches filters) s.products)))

  pub find_product_by_id : ℕ → Action State (Option ProductEntity)
  find_product_by_id id =
      gets (λ s. Option.map (λ p. p.entity) (c.products.find_unique (has_product id) s.products))

  pub create_investment : Investment → Action State Investment
  create_investment i = do
    rows ←
        or_throw (← gets (λ s. c.investments.save i.id (has_id i.id) i s.investments))
          validation_failed
    modify (λ s. record s { investments = rows })
    pure i

  pub find_investments_by_user_id : ℕ → Action State (List Investment)
  find_investments_by_user_id user_id =
      gets (λ s. c.investments.find (of_user user_id) s.investments)

  pub find_investment_by_id : ℕ → Action State (Option Investment)
  find_investment_by_id id = do
    found ← gets (λ s. c.investments.find_by_id id (has_id id) s.investments)
    or_throw found cast_failed

  pub update_investment_status : ℕ → InvestmentStatus → ℤ → Action State (Option Investment)
  update_investment_status id status returns = do
    (i, rows) ←
        or_throw
          (← gets (λ s.
            c.investments.find_by_id_and_update id (has_id id) (set_status status returns)
              s.investments))
          cast_failed
    modify (λ s. record s { investments = rows })
    pure i

  pub find_matured_active_investments : Env → Action State (List Investment)
  find_matured_active_investments env =
      gets (λ s. c.investments.find (is_due env.now) s.investments)

  pub save_price_feed : PriceFeed → Action State PriceFeed
  save_price_feed entry = do
    modify (λ s. record s { price_feeds = s.price_feeds ++ entry ∷ [] })
    pure entry

  -- The latest first.
  pub get_price_history : ℕ → ℕ → Action State (List PriceFeed)
  get_price_history product_id limit = gets (λ s.
      take limit
        (c.order_feeds (λ f. f.timestamp) (filter (λ f. f.product_id == product_id) s.price_feeds)))
