-- ===== src/Loan/Terms.antt =====
-- loan.service.ts: the terms of a loan: its type, its payment, its schedule, and the credit score.
pub mod Score
pub mod Payment
pub mod Schedule
use nexapay_fintech_super_ap.Common.{
  ℕ, zero, suc, ◌+◌, ◌-◌, ◌*◌, ◌/◌, ◌^◌, min, max, Bool, not, ◌&&◌, none, some, List, [], ◌∷◌, ltb,
  leb, length, filter, sum, or_else, if◌then◌else◌,
}
use nexapay_fintech_super_ap.Loan.Entities.{
  LoanStatus, RepaymentStatus, Repayment, TermType, short, medium, long, Loan, Factors,
  ApplyLoanDto, Env, same_status,
}

-- The units of a cent, and of the base currency's unit.
abbrev pub cent : ℕ
cent = 200

abbrev pub currency_unit : ℕ
currency_unit = 20000

pub get_term_type : ℕ → TermType
get_term_type term_months =
    if leb term_months 6 then short else if leb term_months 24 then medium else long

-- One over the monthly rate: 8 %, 12 % and 15 % a year are 1/150, 1/100 and 1/80 a month.
abbrev pub rate_inverse : TermType → ℕ
rate_inverse short = 150
rate_inverse medium = 100
rate_inverse long = 80

-- With the monthly rate 1/m, the payment P/m · (1 + 1/m)^n / ((1 + 1/m)^n - 1) rounded to cents, half
-- a cent up.
unfoldable pub calculate_monthly_payment : ℕ → TermType → ℕ → ℕ
calculate_monthly_payment principal rate term_months =
    let m = rate_inverse rate in
    let num = principal * suc m ^ term_months in
    let den = cent * (m * (suc m ^ term_months - m ^ term_months)) in
    cent * ((2 * num + den) / (2 * den))

-- The rows that `createRepayments` is given, from month `i` on.
unfoldable pub schedule : Env → ℕ → ℕ → ℕ → ℕ → List Repayment
schedule env loan_id amount i zero = []
schedule env loan_id amount i (suc n) =
    record {
      id = env.repayment_uuid i;
      loan_id = loan_id;
      due_date = env.add_months env.now i;
      amount = amount;
      paid_amount = 0;
      status = RepaymentStatus.pending;
      paid_at = none;
      penalty_amount = 0;
      created_at = env.now;
      updated_at = env.now;
    }
    ∷ schedule env loan_id amount (suc i) n

abbrev pub with_status : LoanStatus → List Loan → ℕ
with_status status loans = length (filter (λ l. same_status l.status status) loans)

abbrev pub existing_debt : List Loan → ℕ
existing_debt loans =
    sum (λ l. or_else l.total_payable 0)
      (filter (λ l. same_status l.status LoanStatus.active) loans)

-- `debtToIncomeRatio > 0.5` and `> 0.3`, with the divisor `Math.max(totalExistingDebt + amount, 1)`.
abbrev pub high_ratio : ℕ → ℕ → Bool
high_ratio amount debt = ltb (max (debt + amount) currency_unit) (2 * amount)

abbrev pub moderate_ratio : ℕ → ℕ → Bool
moderate_ratio amount debt = ltb (3 * max (debt + amount) currency_unit) (10 * amount)

-- The score from the user's loans: what the factors add to 300, less what they take, within 0 and
-- 850.
pub evaluate_credit_score : List Loan → ApplyLoanDto → ℕ × Factors
evaluate_credit_score existing dto =
    let bad = with_status LoanStatus.defaulted existing in
    let good = with_status LoanStatus.completed existing in
    let bonus = min (good * 30) 150 in
    let high = high_ratio dto.amount (existing_debt existing) in
    let moderate = moderate_ratio dto.amount (existing_debt existing) in
    let large = ltb (10000 * currency_unit) dto.amount in
    let small = ltb dto.amount (1000 * currency_unit) in
    let added = 300 + bonus + (if large then 0 else if small then 10 else 0) in
    let taken =
      bad * 100
      + (if high then 80 else if moderate then 30 else 0)
      + (if large then 20 else 0)
      + (if ltb 36 dto.term_months then 15 else 0) in
    let score = min 850 (added - taken) in
    (
      score,
      record {
        defaulted_loans = if ltb 0 bad then some bad else none;
        completed_loan_history = if ltb 0 good then some good else none;
        history_bonus = if ltb 0 good then some bonus else none;
        high_debt_ratio = high;
        moderate_debt_ratio = not high && moderate;
        high_amount = large;
        small_amount = not large && small;
        long_term = ltb 36 dto.term_months;
        final_score = score;
      },
    )

-- What is due on a repayment.
abbrev pub due_amount : Repayment → ℕ
due_amount r = r.amount + r.penalty_amount
