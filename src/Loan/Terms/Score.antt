-- ===== src/Loan/Terms/Score.antt =====
-- loan.service.ts, `evaluateCreditScore`: the credit score.
use nexapay_fintech_super_ap.Common.{ℕ, ◌+◌, ◌-◌, ◌≤◌, ◌≡◌, Bool, List, min, if◌then◌else◌, arith}
use nexapay_fintech_super_ap.Loan.Entities.{LoanStatus, Loan, ApplyLoanDto}
use nexapay_fintech_super_ap.Loan.Terms.{
  evaluate_credit_score, with_status, existing_debt, high_ratio, moderate_ratio,
}

-- What the ratio of the amount to the debt takes from the score.
abbrev ratio_penalty : ℕ → ℕ → ℕ
ratio_penalty amount debt =
    if high_ratio amount debt then 80 else if moderate_ratio amount debt then 30 else 0

ratio_penalty_antitone :
    (amount debt debt' : ℕ) → debt ≤ debt' → ratio_penalty amount debt' ≤ ratio_penalty amount debt
ratio_penalty_antitone amount debt debt' h = ground arith

clamp_monotone :
    (gain loss loss' : ℕ) → loss' ≤ loss → min 850 (gain - loss) ≤ min 850 (gain - loss')
clamp_monotone gain loss loss' h = omega arith

score_bound : (bonus small taken : ℕ) → min 850 (300 + min bonus 150 + small - taken) ≤ 450 + small
score_bound bonus small taken = omega arith

small_bound : (a b : Bool) → (if a then 0 else if b then 10 else 0) ≤ 10
small_bound a b = ground arith

-- No application scores more than 460, whatever the user's history: the history is worth at most
-- 150, and a small amount 10, on top of 300.
evaluate_credit_score_bound :
    (existing : List Loan) (dto : ApplyLoanDto) → (evaluate_credit_score existing dto).0 ≤ 460
unfolding evaluate_credit_score
evaluate_credit_score_bound existing dto = ground arith

-- More debt never lowers the score: of two users with as many defaulted and completed loans, the
-- one who owes more on active loans gets at least the score of the other for the same application.
pub evaluate_credit_score_debt :
    (existing existing' : List Loan) (dto : ApplyLoanDto)
    → with_status LoanStatus.defaulted existing ≡ with_status LoanStatus.defaulted existing'
    → with_status LoanStatus.completed existing ≡ with_status LoanStatus.completed existing'
    → existing_debt existing ≤ existing_debt existing'
    → (evaluate_credit_score existing dto).0 ≤ (evaluate_credit_score existing' dto).0
unfolding evaluate_credit_score
evaluate_credit_score_debt existing existing' dto bad good debt = ground (
  arith,
  bad,
  good,
  ratio_penalty_antitone dto.amount (existing_debt existing) (existing_debt existing') debt,
)
