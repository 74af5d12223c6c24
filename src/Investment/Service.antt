-- ===== src/Investment/Service.antt =====
-- investment.service.ts: the methods of `InvestmentService`.
pub mod Outcomes
pub mod Loss
pub mod Maturations
pub mod Lifecycle
pub mod Portfolio
use nexapay_fintech_super_ap.Common.{
  ℕ, ◌+◌, ◌*◌, ◌/◌, Bool, true, false, not, Option, none, some, List, [], ◌∷◌, ◌++◌, ltb, or_else,
  if◌then◌else◌,
}
use mathlib.Core.Option
use nexapay_fintech_super_ap.Common.Int.{ℤ, pos}
use nexapay_fintech_super_ap.Common.Action.{
  Action, ◌>>=◌, ◌>>◌, pure, throw_if, modify, or_throw, not_found, bad_request,
}
use nexapay_fintech_super_ap.Investment.Entities.{
  ProductEntity, InvestmentStatus, Investment, ProductFilters, BuyInvestmentDto,
  WithdrawInvestmentDto, BuyResult, WithdrawResult, Holding, PortfolioResult, Event, State, Clients,
  Env, is_available, is_active,
}
use nexapay_fintech_super_ap.Investment.Valuation.{
  current_value, round_difference, returns_of, calculate_units,
}
use nexapay_fintech_super_ap.Investment.Repository.{
  find_all_products, find_product_by_id, create_investment, find_investments_by_user_id,
  find_investment_by_id, update_investment_status, find_matured_active_investments,
}

-- Without a producer, or if sending fails, an event is only logged.
abbrev pub emitted : Env → Event → List Event → List Event
emitted env e events = if env.delivered then events ++ e ∷ [] else events

abbrev pub emit_kafka_event : Env → Event → Action State (Unit {0})
emit_kafka_event env e = modify (λ s. record s { events = emitted env e s.events })

abbrev pub new_investment : Env → BuyInvestmentDto → ProductEntity → Investment
new_investment env dto product = record {
  id = env.uuid;
  user_id = dto.user_id;
  product_id = dto.product_id;
  amount = dto.amount;
  units = calculate_units dto.amount product;
  status = InvestmentStatus.active;
  start_date = env.now;
  maturity_date = env.add_year env.now;
  returns = pos 0;
}

abbrev pub holding : Investment → Option ProductEntity → Holding
holding i product = record {
  id = i.id;
  product_id = i.product_id;
  product_name = or_else (Option.map (λ p. p.name) product) "Unknown";
  product_type = Option.map (λ p. p.type_) product;
  amount = i.amount;
  units = i.units;
  status = i.status;
  start_date = i.start_date;
  maturity_date = i.maturity_date;
  current_value = current_value i product;
  returns = returns_of i product;
}

module _ (c : Clients) where
  pub get_products : ProductFilters → Action State (List ProductEntity)
  get_products = find_all_products c

  pub get_product_by_id : ℕ → Action State ProductEntity
  get_product_by_id id = do product ← find_product_by_id c id; or_throw product not_found

  pub buy_investment : Env → BuyInvestmentDto → Action State BuyResult
  buy_investment env dto = do
    product ← or_throw (← find_product_by_id c dto.product_id) not_found
    throw_if (not (is_available product.status)) bad_request
    throw_if (ltb dto.amount product.min_investment) bad_request
    throw_if (ltb product.max_investment dto.amount) bad_request
    let i = new_investment env dto product
    create_investment c i
    emit_kafka_event env (Event.purchased i.id dto.user_id dto.product_id dto.amount i.units)
    pure (record {
      id = i.id;
      user_id = dto.user_id;
      product_id = dto.product_id;
      amount = dto.amount;
      units = i.units;
      status = InvestmentStatus.active;
    })

  -- The loop of `getPortfolio`, with the two totals so far.
  pub enrich : List Investment → ℕ → ℕ → Action State (List Holding × ℕ × ℕ)
  enrich [] total_invested total_value = pure ([], total_invested, total_value)
  enrich (i ∷ rest) total_invested total_value = do
    product ← find_product_by_id c i.product_id
    (holdings, invested, value) ←
        enrich rest (total_invested + i.amount) (total_value + current_value i product)
    pure (holding i product ∷ holdings, invested, value)

  -- The part of `getPortfolio` after the query.
  pub portfolio : ℕ → List Investment → Action State PortfolioResult
  portfolio user_id [] = pure (record {
    user_id = user_id;
    total_invested = 0;
    current_value = 0;
    total_returns = pos 0;
    investments = [];
  })
  portfolio user_id (i ∷ rest) = do
    (holdings, invested, value) ← enrich (i ∷ rest) 0 0
    pure (record {
      user_id = user_id;
      total_invested = invested;
      current_value = value;
      total_returns = round_difference value (10000 * invested);
      investments = holdings;
    })

  pub get_portfolio : ℕ → Action State PortfolioResult
  get_portfolio user_id = do
    investments ← find_investments_by_user_id c user_id
    portfolio user_id investments

  -- The user of an investment, and the investment as a portfolio shows it.
  pub get_investment_by_id : ℕ → Action State (ℕ × Holding)
  get_investment_by_id id = do
    i ← or_throw (← find_investment_by_id c id) not_found
    product ← find_product_by_id c i.product_id
    pure (i.user_id, holding i product)

  pub withdraw_investment : Env → ℕ → WithdrawInvestmentDto → Action State WithdrawResult
  withdraw_investment env id dto = do
    i ← or_throw (← find_investment_by_id c id) not_found
    throw_if (not (is_active i.status)) bad_request
    product ← find_product_by_id c i.product_id
    let returns = returns_of i product
    update_investment_status c id InvestmentStatus.withdrawn returns
    emit_kafka_event env (Event.withdrawn id dto.user_id i.product_id i.amount returns dto.reason)
    pure (record {
      id = id;
      status = InvestmentStatus.withdrawn;
      returns = returns;
      message = "Investment withdrawn successfully";
    })

  -- The loop of `processMaturations`.
  pub mature : Env → List Investment → Action State (Unit {0})
  mature env [] = pure tt
  mature env (i ∷ rest) = do
    product ← find_product_by_id c i.product_id
    let returns = returns_of i product
    update_investment_status c i.id InvestmentStatus.matured returns
    emit_kafka_event env (Event.matured i.id i.user_id i.product_id i.amount returns)
    mature env rest

  pub process_maturations : Env → Action State (Unit {0})
  process_maturations env = do due ← find_matured_active_investments c env; mature env due
