-- ===== src/Investment/Tests.antt =====
-- Instances of the theorems on the investment service, with collections in memory.
use nexapay_fintech_super_ap.Investment.Service.Maturations.{process_maturations-settled}
use nexapay_fintech_super_ap.Investment.Service.Loss.{
  withdraw_investment_loss, buy_investment_refused,
}
use nexapay_fintech_super_ap.Investment.Service.{
  buy_investment, withdraw_investment, process_maturations,
}
use nexapay_fintech_super_ap.Investment.Valuation.{calculate_units}
use nexapay_fintech_super_ap.Investment.Repository.{has_id}
use nexapay_fintech_super_ap.Investment.Service.Lifecycle.{Step, Run, Run-closed, AreFresh}
use nexapay_fintech_super_ap.Investment.Entities.{
  ProductStatus, RiskLevel, Event, ProductType, InvestmentStatus, Env, ProductEntity,
  BuyInvestmentDto, State, Clients, WithdrawInvestmentDto, Investment, WithdrawResult,
}
use nexapay_fintech_super_ap.Common.{
  sym, false, ◌+◌, ◌*◌, ◌≤◌, ◌≡◌, refl, true, none, some, [], ◌∷◌,
}
use nexapay_fintech_super_ap.Common.Int.{pos, negsuc, neg_part}
use nexapay_fintech_super_ap.Common.Action.{err, Exception, ok}
use nexapay_fintech_super_ap.Common.InMemory.{sort_desc, sort_desc-IsDescending, table, collection}
use nexapay_fintech_super_ap.Common.Rows.{find?}

abbrev clients : Clients
clients = record {
  products = table;
  investments = collection (λ _. true);
  order_feeds = sort_desc;
  order_feeds-IsDescending = sort_desc-IsDescending;
}

abbrev env : Env
env = record { now = 1000; add_year = λ t. t + 365; uuid = 9; delivered = true }

-- 12.5 % a year, from 10 to 10,000.
abbrev fund : ProductEntity
fund = record {
  id = 1;
  name = "Growth Mutual Fund";
  type_ = ProductType.mutual_fund;
  description = "A diversified growth mutual fund";
  min_investment = 1000;
  max_investment = 1000000;
  expected_return = 1250;
  risk_level = RiskLevel.medium;
  status = ProductStatus.active;
}

abbrev due_one : Investment
due_one = record {
  id = 1;
  user_id = 7;
  product_id = 1;
  amount = 100000;
  units = 889;
  status = InvestmentStatus.active;
  start_date = 500;
  maturity_date = 865;
  returns = pos 0;
}

abbrev closed_one : Investment
closed_one = record due_one { id = 2; status = InvestmentStatus.withdrawn; returns = negsuc 98999 }

abbrev state : State
state = record {
  products = record { entity = fund; created_at = 1 } ∷ [];
  investments = due_one ∷ closed_one ∷ [];
  price_feeds = [];
  events = [];
}

abbrev purchase : BuyInvestmentDto
purchase = record { user_id = 7; product_id = 1; amount = 100000 }

abbrev withdrawal : WithdrawInvestmentDto
withdrawal = record { user_id = 8; reason = none }

-- 8.89 units for 1,000, which are worth 10.00.
units_of_fund : calculate_units 100000 fund ≡ 889
unfolding calculate_units
units_of_fund = refl

all_fresh : AreFresh clients state
all_fresh = (refl, refl, (refl, refl, tt))

process_maturations-settled_example : process_maturations clients env state ≡ (
  ok tt,
  record state {
    investments =
        record due_one { status = InvestmentStatus.matured; returns = negsuc 98999 }
        ∷ closed_one
        ∷ [];
    events = Event.matured 1 7 1 100000 (negsuc 98999) ∷ [];
  },
)
process_maturations-settled_example = process_maturations-settled clients env state all_fresh

Run-closed_example :
    find?
      (has_id 2)
      (withdraw_investment clients env 2 withdrawal
        (process_maturations clients env
          (buy_investment clients env purchase state).1).1).1.investments
    ≡ some closed_one
Run-closed_example =
    Run-closed clients
      (Run.next (Step.buys env purchase state)
        (Run.next (Step.matures env _) (Run.next (Step.withdraws env 2 withdrawal _) Run.done)))
      all_fresh 2 closed_one refl refl

-- A single unit's price is 1.125, so the 8.89 units of 1,000 are worth 10.00.
withdraw_investment_loss_example :
    (w : WithdrawResult) × ((withdraw_investment clients env 1 withdrawal state).0 ≡ ok w)
    × (19800 * 100000 ≤ 20000 * neg_part w.returns + (11250 + 10000))
withdraw_investment_loss_example =
    withdraw_investment_loss clients env 1 withdrawal state due_one fund refl refl refl refl
      (sym units_of_fund)

-- The clients with a collection in which no id casts.
abbrev strict_clients : Clients
strict_clients = record clients { investments = collection (λ _. false) }

buy_investment_refused_example :
    (e : Exception) × (buy_investment strict_clients env purchase state ≡ (err e, state))
buy_investment_refused_example = buy_investment_refused strict_clients env purchase state refl
