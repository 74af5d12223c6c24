-- ===== src/Investment/Service/Portfolio.antt =====
-- investment.service.ts, `getPortfolio`: the loop against sums.
use nexapay_fintech_super_ap.Common.{ℕ, ◌+◌, ◌*◌, ◌≡◌, refl, List, [], ◌∷◌, filter, sum, map}
use native.Mathlib.Nat.{add-zero, zero-add, add_assoc}
use nexapay_fintech_super_ap.Common.Action.{ok}
use nexapay_fintech_super_ap.Investment.Entities.{
  ProductRow, Investment, Holding, PortfolioResult, State, Clients,
}
use nexapay_fintech_super_ap.Investment.Valuation.{current_value, round_difference}
use nexapay_fintech_super_ap.Investment.Repository.{of_user}
use nexapay_fintech_super_ap.Investment.Repository.Calls.{
  product_in, find_product_by_id_lem, find_investments_by_user_id_lem,
}
use nexapay_fintech_super_ap.Investment.Service.{holding, enrich, portfolio, get_portfolio}

abbrev pub value_in : List ProductRow → Investment → ℕ
value_in products i = current_value i (product_in products i.product_id)

abbrev pub holding_in : List ProductRow → Investment → Holding
holding_in products i = holding i (product_in products i.product_id)

-- The portfolio of a list of investments, by sums.
abbrev pub portfolio_of : List ProductRow → ℕ → List Investment → PortfolioResult
portfolio_of products user_id is = record {
  user_id = user_id;
  total_invested = sum (λ i. i.amount) is;
  current_value = sum (value_in products) is;
  total_returns = round_difference (sum (value_in products) is) (10000 * sum (λ i. i.amount) is);
  investments = map (holding_in products) is;
}

module _ (c : Clients) where
  enrich_lem :
      (is : List Investment) (invested value : ℕ) (s : State)
      → enrich c is invested value s ≡ (
        ok (
          map (holding_in s.products) is,
          invested + sum (λ i. i.amount) is,
          value + sum (value_in s.products) is,
        ),
        s,
      )
  unfolding enrich
  enrich_lem [] invested value s = rw (add-zero invested, add-zero value) refl
  enrich_lem (i ∷ is) invested value s = rw (find_product_by_id_lem c i.product_id s) (
      rw (enrich_lem is (invested + i.amount) (value + value_in s.products i) s) (
        rw
          (
            add_assoc invested i.amount (sum (λ j. j.amount) is),
            add_assoc value (value_in s.products i) (sum (value_in s.products) is),
          )
          refl))

  portfolio_lem :
      (user_id : ℕ) (is : List Investment) (s : State)
      → portfolio c user_id is s ≡ (ok (portfolio_of s.products user_id is), s)
  unfolding portfolio
  portfolio_lem user_id [] s = refl
  portfolio_lem user_id (i ∷ is) s = rw (enrich_lem (i ∷ is) 0 0 s) (
      rw (zero-add (sum (λ j. j.amount) (i ∷ is)), zero-add (sum (value_in s.products) (i ∷ is)))
        refl)

  -- The portfolio of a user shows the user's investments, whatever their status, in the order of
  -- the collection, and its totals are the sums over them. The call changes nothing.
  pub get_portfolio-portfolio_of :
      (user_id : ℕ) (s : State)
      → get_portfolio c user_id s
        ≡ (ok (portfolio_of s.products user_id (filter (of_user user_id) s.investments)), s)
  unfolding get_portfolio
  get_portfolio-portfolio_of user_id s =
      rw (find_investments_by_user_id_lem c user_id s)
        (portfolio_lem user_id (filter (of_user user_id) s.investments) s)
