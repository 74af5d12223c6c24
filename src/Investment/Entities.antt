-- ===== src/Investment/Entities.antt =====
-- product.entity.ts, investment.schema.ts, price-feed.schema.ts and the DTOs. Ids are only compared,
-- and are numbers; `casts` of a collection tells which of them are ObjectIds. Amounts are in cents,
-- units in hundredths, rates in hundredths of a percent and not negative, prices in cents. The
-- times that Mongoose stamps on a document are never read and are left out.
use nexapay_fintech_super_ap.Common.{ℕ, Bool, true, false, Option, List}
use nexapay_fintech_super_ap.Common.Int.{ℤ}
use nexapay_fintech_super_ap.Common.Clients.{Prisma, Mongo, IsDescending}
use Prim.Native.String.{String}

pub data ProductType : Type 0 where
  mutual_fund bond deposit : ProductType

pub data RiskLevel : Type 0 where
  low medium high : RiskLevel

pub data ProductStatus : Type 0 where
  active inactive sold_out : ProductStatus

pub record ProductEntity : Type 0 where
  pub id : ℕ
  pub name : String
  pub type_ : ProductType
  pub description : String
  pub min_investment : ℕ
  pub max_investment : ℕ
  pub expected_return : ℕ
  pub risk_level : RiskLevel
  pub status : ProductStatus

-- A row of `products`: what the entity takes of it, and the time that orders the list.
pub record ProductRow : Type 0 where
  pub entity : ProductEntity
  pub created_at : ℕ

pub data InvestmentStatus : Type 0 where
  active matured withdrawn : InvestmentStatus

pub record Investment : Type 0 where
  pub id : ℕ
  pub user_id : ℕ
  pub product_id : ℕ
  pub amount : ℕ
  pub units : ℕ
  pub status : InvestmentStatus
  pub start_date : ℕ
  pub maturity_date : ℕ
  pub returns : ℤ

pub record PriceFeed : Type 0 where
  pub product_id : ℕ
  pub price : ℕ
  pub timestamp : ℕ

pub record ProductFilters : Type 0 where
  pub type_ : Option ProductType
  pub risk_level : Option RiskLevel

pub record BuyInvestmentDto : Type 0 where
  pub user_id : ℕ
  pub product_id : ℕ
  pub amount : ℕ

pub record WithdrawInvestmentDto : Type 0 where
  pub user_id : ℕ
  pub reason : Option String

pub record BuyResult : Type 0 where
  pub id : ℕ
  pub user_id : ℕ
  pub product_id : ℕ
  pub amount : ℕ
  pub units : ℕ
  pub status : InvestmentStatus

pub record WithdrawResult : Type 0 where
  pub id : ℕ
  pub status : InvestmentStatus
  pub returns : ℤ
  pub message : String

-- An investment as a portfolio shows it. `none` is 'UNKNOWN', the type of a lost product.
pub record Holding : Type 0 where
  pub id : ℕ
  pub product_id : ℕ
  pub product_name : String
  pub product_type : Option ProductType
  pub amount : ℕ
  pub units : ℕ
  pub status : InvestmentStatus
  pub start_date : ℕ
  pub maturity_date : ℕ
  -- In millionths, before it is rounded to cents.
  pub current_value : ℕ
  pub returns : ℤ

pub record PortfolioResult : Type 0 where
  pub user_id : ℕ
  pub total_invested : ℕ
  -- In millionths, before it is rounded to cents.
  pub current_value : ℕ
  pub total_returns : ℤ
  pub investments : List Holding

-- The topics `investment.purchased`, `.withdrawn` and `.matured`, with the payload of each.
pub data Event : Type 0 where
  purchased : (id user_id product_id amount units : ℕ) → Event
  withdrawn : (id user_id product_id amount : ℕ) (returns : ℤ) (reason : Option String) → Event
  matured : (id user_id product_id amount : ℕ) (returns : ℤ) → Event

pub record State : Type 0 where
  pub products : List ProductRow
  pub investments : List Investment
  pub price_feeds : List PriceFeed
  pub events : List Event

pub record Clients : Type 0 where
  pub products : Prisma ProductRow
  pub investments : Mongo Investment
  pub order_feeds : (PriceFeed → ℕ) → List PriceFeed → List PriceFeed
  pub order_feeds-IsDescending :
      (key : PriceFeed → ℕ) (rows : List PriceFeed) → IsDescending key (order_feeds key rows)

-- The clock, the date a year after a date, the id that `uuidv4` draws, and whether Kafka is there
-- and takes an event.
pub record Env : Type 0 where
  pub now : ℕ
  pub add_year : ℕ → ℕ
  pub uuid : ℕ
  pub delivered : Bool

-- `===`
abbrev pub same_type : ProductType → ProductType → Bool
same_type mutual_fund mutual_fund = true
same_type bond bond = true
same_type deposit deposit = true
same_type _ _ = false

abbrev pub same_risk : RiskLevel → RiskLevel → Bool
same_risk low low = true
same_risk medium medium = true
same_risk high high = true
same_risk _ _ = false

abbrev pub is_available : ProductStatus → Bool
is_available ProductStatus.active = true
is_available _ = false

abbrev pub is_active : InvestmentStatus → Bool
is_active InvestmentStatus.active = true
is_active _ = false
