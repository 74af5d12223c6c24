-- ===== src/Loan/Entities.antt =====
-- loan.entity.ts and the DTOs of the loan service. Ids and texts are only compared, and are
-- numbers; times are in milliseconds. An amount of money is counted in units of 1/200 cent, in
-- which the schedule's amounts, whole cents, and the penalties, 0.5 % of them a day, are exact.
use nexapay_fintech_super_ap.Common.{◌<◌, ◌+◌, ℕ, ◌≡◌, Bool, true, false, Option, List}
use mathlib.Core.List.{Perm}
use Prim.Native.String.{String}
use nexapay_fintech_super_ap.Common.Clients.{Prisma}

pub data LoanStatus : Type 0 where
  pending approved active rejected completed defaulted : LoanStatus

pub data RepaymentStatus : Type 0 where
  pending paid late defaulted : RepaymentStatus

-- `===`
abbrev pub same_status : LoanStatus → LoanStatus → Bool
same_status LoanStatus.pending LoanStatus.pending = true
same_status LoanStatus.approved LoanStatus.approved = true
same_status LoanStatus.active LoanStatus.active = true
same_status LoanStatus.rejected LoanStatus.rejected = true
same_status LoanStatus.completed LoanStatus.completed = true
same_status LoanStatus.defaulted LoanStatus.defaulted = true
same_status _ _ = false

-- `PENDING` or `LATE`.
abbrev pub is_due : RepaymentStatus → Bool
is_due RepaymentStatus.pending = true
is_due RepaymentStatus.late = true
is_due _ = false

-- `PAID` or `DEFAULTED`.
abbrev pub is_closed : RepaymentStatus → Bool
is_closed RepaymentStatus.paid = true
is_closed RepaymentStatus.defaulted = true
is_closed _ = false

abbrev pub is_defaulted : RepaymentStatus → Bool
is_defaulted RepaymentStatus.defaulted = true
is_defaulted _ = false

-- A row of `repayment`.
pub record Repayment : Type 0 where
  pub id : ℕ
  pub loan_id : ℕ
  pub due_date : ℕ
  pub amount : ℕ
  pub paid_amount : ℕ
  pub status : RepaymentStatus
  pub paid_at : Option ℕ
  pub penalty_amount : ℕ
  pub created_at : ℕ
  pub updated_at : ℕ

-- The term types of `INTEREST_RATES`.
pub data TermType : Type 0 where
  short medium long : TermType

-- A row of `loan`; its repayments are in their own table. The interest rate is the one of a term
-- type.
pub record Loan : Type 0 where
  pub id : ℕ
  pub user_id : ℕ
  pub amount : ℕ
  pub interest_rate : TermType
  pub term_months : ℕ
  pub status : LoanStatus
  pub purpose : String
  pub credit_score : Option ℕ
  pub monthly_payment : Option ℕ
  pub total_payable : Option ℕ
  pub created_at : ℕ
  pub updated_at : ℕ
  pub approved_at : Option ℕ
  pub approved_by : Option ℕ
  pub rejected_at : Option ℕ
  pub rejected_by : Option ℕ
  pub rejected_reason : Option String
  pub disbursed_at : Option ℕ

-- What the score was made of.
pub record Factors : Type 0 where
  pub defaulted_loans : Option ℕ
  pub completed_loan_history : Option ℕ
  pub history_bonus : Option ℕ
  pub high_debt_ratio : Bool
  pub moderate_debt_ratio : Bool
  pub high_amount : Bool
  pub small_amount : Bool
  pub long_term : Bool
  pub final_score : ℕ

pub record CreditScore : Type 0 where
  pub id : ℕ
  pub user_id : ℕ
  pub score : ℕ
  pub factors : Factors
  pub last_updated : ℕ
  pub created_at : ℕ

pub record ApplyLoanDto : Type 0 where
  pub amount : ℕ
  pub purpose : String
  pub term_months : ℕ

pub record RepayLoanDto : Type 0 where
  pub amount : ℕ

-- The fields that `updateLoanStatus` and `updateRepayment` may be given.
pub record LoanChange : Type 0 where
  pub status : LoanStatus
  pub approved_at : Option ℕ
  pub approved_by : Option ℕ
  pub rejected_at : Option ℕ
  pub rejected_by : Option ℕ
  pub rejected_reason : Option String
  pub disbursed_at : Option ℕ

pub record RepaymentChange : Type 0 where
  pub paid_amount : Option ℕ
  pub status : Option RepaymentStatus
  pub paid_at : Option ℕ
  pub penalty_amount : Option ℕ

pub data EventName : Type 0 where
  repaid disbursed defaulted : EventName

-- The terms of a disbursed loan that its event carries.
pub record Terms : Type 0 where
  pub interest_rate : TermType
  pub term_months : ℕ
  pub monthly_payment : Option ℕ

pub record Event : Type 0 where
  pub event : EventName
  pub loan_id : ℕ
  pub user_id : ℕ
  pub amount : ℕ
  pub timestamp : ℕ
  pub metadata : Option Terms

pub record Db : Type 0 where
  pub loans : List Loan
  pub repayments : List Repayment
  pub scores : List CreditScore

-- The external clients: the tables, the order of a query, and the counters of Redis.
pub record Clients (R : Type 0) : Type 0 where
  pub loans : Prisma Loan
  pub repayments : Prisma Repayment
  pub scores : Prisma CreditScore
  pub order_asc : (Repayment → ℕ) → List Repayment → List Repayment
  pub order_asc-perm :
      (key : Repayment → ℕ) (rows : List Repayment) → Perm (order_asc key rows) rows
  pub incr : ℕ → ℕ → R → ℕ × R
  pub expire : ℕ → ℕ → ℕ → R → R
  -- The value of a counter at a time, 0 where it is missing or has expired.
  pub counted : ℕ → ℕ → R → ℕ
  pub incr_lem : (now key : ℕ) (r : R) → (incr now key r).0 ≡ counted now key r + 1
  pub counted-incr :
      (now key : ℕ) (r : R) → counted now key (incr now key r).1 ≡ counted now key r + 1
  pub counted-expire :
      (now key ttl : ℕ) (r : R)
      → 0 < ttl
      → counted now key (expire now key ttl r) ≡ counted now key r

pub record State (R : Type 0) : Type 0 where
  pub db : Db
  pub counters : R
  pub events : List Event

-- The clock, the ids of new rows, `setMonth` by a number of months, and whether Kafka takes an
-- event.
pub record Env : Type 0 where
  pub now : ℕ
  pub uuid : ℕ
  pub score_uuid : ℕ
  pub repayment_uuid : ℕ → ℕ
  pub add_months : ℕ → ℕ → ℕ
  pub delivered : Bool
