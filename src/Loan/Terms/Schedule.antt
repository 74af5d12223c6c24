-- ===== src/Loan/Terms/Schedule.antt =====
-- loan.service.ts, `generateRepaymentSchedule`: the schedule of repayments.
use nexapay_fintech_super_ap.Common.{ℕ, zero, suc, ◌*◌, ◌≡◌, refl, length, sum, arith, ap}
use nexapay_fintech_super_ap.Loan.Entities.{Env}
use nexapay_fintech_super_ap.Loan.Terms.{schedule, due_amount}

-- A schedule has a row for each month, and what is due on its rows adds up to the months times
-- the payment.
schedule_total :
    (env : Env) (loan_id amount i n : ℕ)
    → (length (schedule env loan_id amount i n) ≡ n)
      × (sum due_amount (schedule env loan_id amount i n) ≡ amount * n)
unfolding schedule
schedule_total env loan_id amount i zero = (refl, omega arith)
schedule_total env loan_id amount i (suc n) =
    let (l, t) = schedule_total env loan_id amount (suc i) n in (ap suc l, omega (arith, t))
