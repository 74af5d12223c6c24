-- ===== src/Investment/Service/Loss.antt =====
-- investment.service.ts, `withdrawInvestment` and `buyInvestment`: what a withdrawal is worth, and a
-- purchase under an id that does not cast.
use nexapay_fintech_super_ap.Investment.Entities.{BuyResult}
use nexapay_fintech_super_ap.Common.{
  sym, subst, ℕ, false, ◌+◌, ◌*◌, ◌≤◌, ◌≡◌, refl, true, some, arith,
}
use nexapay_fintech_super_ap.Common.Int.{neg_part}
use nexapay_fintech_super_ap.Common.Rows.{find?}
use nexapay_fintech_super_ap.Common.Action.{Result, err, Exception, ok}
use nexapay_fintech_super_ap.Investment.Entities.{
  is_active, Investment, ProductEntity, BuyInvestmentDto, WithdrawInvestmentDto, WithdrawResult,
  State, Clients, Env,
}
use nexapay_fintech_super_ap.Investment.Valuation.{unit_price, returns_of}
use nexapay_fintech_super_ap.Investment.Valuation.Rounding.{
  calculate_units_le, round_difference_loss,
}
use nexapay_fintech_super_ap.Investment.Repository.{has_id}
use nexapay_fintech_super_ap.Investment.Repository.Calls.{product_in}
use nexapay_fintech_super_ap.Investment.Service.{
  calculate_units, buy_investment, withdraw_investment,
}
use nexapay_fintech_super_ap.Investment.Service.Outcomes.{
  buy_investment-BuyOutcome, BuyOutcome, withdraw_investment-active, withdraw_result,
}

returns_of_loss :
    (i : Investment) (p : ProductEntity)
    → i.units ≡ calculate_units i.amount p
    → 19800 * i.amount ≤ 20000 * neg_part (returns_of i (some p)) + (unit_price (some p) + 10000)
returns_of_loss i p units =
    let a = i.units * unit_price (some p) in
    let u : 2 * a ≤ 200 * i.amount + unit_price (some p) =
      subst (λ n. 2 * (n * unit_price (some p)) ≤ 200 * i.amount + unit_price (some p)) (sym units)
        (calculate_units_le i.amount p) in
    let r : 10000 * i.amount ≤ a + (10000 * neg_part (returns_of i (some p)) + 5000) =
      round_difference_loss a (10000 * i.amount) in
    omega arith

module _ (c : Clients) (env : Env) (id : ℕ) (dto : WithdrawInvestmentDto) where
  -- A stored active investment whose id casts and whose units are those that `calculateUnits` gives
  -- for its amount and its product is withdrawn, and the returns are a loss of at least 99 % of the
  -- amount, up to a rounding of half a cent and of half of 1 + rate cents, whatever the dates and
  -- the rate of the product.
  pub withdraw_investment_loss :
      (s : State) (i : Investment) (p : ProductEntity)
      → c.investments.casts id ≡ true
      → find? (has_id id) s.investments ≡ some i
      → is_active i.status ≡ true
      → product_in s.products i.product_id ≡ some p
      → i.units ≡ calculate_units i.amount p
      → (w : WithdrawResult) × ((withdraw_investment c env id dto s).0 ≡ ok w)
        × (19800 * i.amount ≤ 20000 * neg_part w.returns + (unit_price (some p) + 10000))
  withdraw_investment_loss s i p casts found active e units =
      rw (withdraw_investment-active c env id dto s i casts found active)
        (rw e (withdraw_result c env id dto i (some p), refl, returns_of_loss i p units))

module _ (c : Clients) (env : Env) (dto : BuyInvestmentDto) where
  -- Under a new id that does not cast to an ObjectId, as no UUID does, no purchase succeeds: each
  -- throws and changes nothing.
  pub buy_investment_refused :
      (s : State)
      → c.investments.casts env.uuid ≡ false
      → (e : Exception) × (buy_investment c env dto s ≡ (err e, s))
  buy_investment_refused s uncast =
      BuyOutcome-refused s (buy_investment c env dto s) uncast
        (buy_investment-BuyOutcome c env dto s)
    where
      BuyOutcome-refused :
          (s : State) (r : Result BuyResult × State)
          → c.investments.casts env.uuid ≡ false
          → BuyOutcome c env dto s r
          → (e : Exception) × (r ≡ (err e, s))
      BuyOutcome-refused s _ no_cast (BuyOutcome.refused e) = (e, refl)
      BuyOutcome-refused s _ no_cast (BuyOutcome.bought p e available low high casts fresh) = cc
