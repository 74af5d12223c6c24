-- ===== src/Loan/Tests.antt =====
-- The loan methods on small inputs.
use nexapay_fintech_super_ap.Common.{
  inr, lt→ltb, inl, ltb, ◌<◌, Bool-cases, ℕ, ◌+◌, ◌*◌, ◌-◌, ◌≤◌, ◌≡◌, refl, ap, sum, true, ◌==◌,
  Option, none, some, List, [], ◌∷◌, ◌++◌, if◌then◌else◌, arith, ==_refl,
}
use nexapay_fintech_super_ap.Common.Rows.{find?}
use nexapay_fintech_super_ap.Common.InMemory.{table, sort_desc, sort_desc-perm}
use nexapay_fintech_super_ap.Common.Action.{ok, err, bad_request}
use nexapay_fintech_super_ap.Loan.Entities.{
  LoanStatus, RepaymentStatus, short, Loan, Repayment, ApplyLoanDto, Clients, State, Env,
}
use nexapay_fintech_super_ap.Loan.Repository.{has_id, change_loan}
use nexapay_fintech_super_ap.Loan.Repository.Calls.{Fresh}
use nexapay_fintech_super_ap.Loan.Service.{pay_off, approve_loan, reject_loan}
use nexapay_fintech_super_ap.Loan.Service.{check_and_complete_loan, no_change}
use nexapay_fintech_super_ap.Loan.Service.Completion.{check_and_complete_loan-completes}
use nexapay_fintech_super_ap.Loan.Terms.{
  evaluate_credit_score, calculate_monthly_payment, schedule, cent,
}
use nexapay_fintech_super_ap.Loan.Terms.Score.{evaluate_credit_score_debt}
use nexapay_fintech_super_ap.Loan.Terms.Payment.{calculate_monthly_payment_covers}
use nexapay_fintech_super_ap.Loan.Service.Repayments.{pay_off_total}
use nexapay_fintech_super_ap.Loan.Service.RateLimit.{attempts, attempts_limited}
use nexapay_fintech_super_ap.Loan.Service.Decisions.{
  approve_loan_activates, reject_loan_final, approval, disbursal, rejection, reject_loan_lem,
}

abbrev latest : ℕ
latest = 1000000000000

-- Counters with the times at which they expire.
abbrev Counters : Type 0
Counters = ℕ → ℕ × Option ℕ

abbrev live_count : ℕ → ℕ × Option ℕ → ℕ
live_count now (n, none) = n
live_count now (n, some until) = if ltb now until then n else 0

abbrev live_expiry : ℕ → ℕ × Option ℕ → Option ℕ
live_expiry now (n, none) = none
live_expiry now (n, some until) = if ltb now until then some until else none

abbrev set : {V : Type 0} → ℕ → V → (ℕ → V) → ℕ → V
set key v m k = if k == key then v else m k

abbrev bump : ℕ → ℕ × Option ℕ → ℕ × Option ℕ
bump now entry = (live_count now entry + 1, live_expiry now entry)

live_count-bump :
    (now : ℕ) (entry : ℕ × Option ℕ) → live_count now (bump now entry) ≡ live_count now entry + 1
live_count-bump now (n, none) = refl
live_count-bump now (n, some until) = elim (Bool-cases (ltb now until)) [
  | inl e ↦ rw e (rw e refl)
  | inr e ↦ rw e refl
]

counted_incr :
    (now key : ℕ) (r : Counters)
    → live_count now (set key (bump now (r key)) r key) ≡ live_count now (r key) + 1
counted_incr now key r = rw (==_refl key) (live_count-bump now (r key))

counted_expire :
    (now key ttl : ℕ) (r : Counters)
    → 0 < ttl
    → live_count now (set key (live_count now (r key), some (now + ttl)) r key)
      ≡ live_count now (r key)
counted_expire now key ttl r pos =
    rw (==_refl key) (rw (lt→ltb now (now + ttl) (omega (arith, pos))) refl)

abbrev clients : Clients Counters
clients = record {
  loans = table;
  repayments = table;
  scores = table;
  order_asc = λ key rows. sort_desc (λ r. latest - key r) rows;
  order_asc-perm = λ key rows. sort_desc-perm (λ r. latest - key r) rows;
  incr = λ now key r. (live_count now (r key) + 1, set key (bump now (r key)) r);
  expire = λ now key ttl r. set key (live_count now (r key), some (now + ttl)) r;
  counted = λ now key r. live_count now (r key);
  incr_lem = λ now key r. refl;
  counted-incr = counted_incr;
  counted-expire = counted_expire;
}

abbrev env : Env
env = record {
  now = 5000;
  uuid = 1;
  score_uuid = 2;
  repayment_uuid = λ i. 100 + i;
  add_months = λ t i. t + i * 2592000000;
  delivered = true;
}

abbrev pending_loan : Loan
pending_loan = record {
  id = 1;
  user_id = 7;
  amount = 20000000;
  interest_rate = short;
  term_months = 3;
  status = LoanStatus.pending;
  purpose = "stock";
  credit_score = some 230;
  monthly_payment = some 6755800;
  total_payable = some 20267400;
  created_at = 1000;
  updated_at = 1000;
  approved_at = none;
  approved_by = none;
  rejected_at = none;
  rejected_by = none;
  rejected_reason = none;
  disbursed_at = none;
}

abbrev active_loan : Loan
active_loan = record pending_loan { id = 3; status = LoanStatus.active }

abbrev state : State Counters
state = record {
  db = record { loans = pending_loan ∷ []; repayments = []; scores = [] };
  counters = λ _. (0, none);
  events = [];
}

abbrev dto : ApplyLoanDto
dto = record { amount = 20000000; purpose = "stock"; term_months = 3 }

payment_run : calculate_monthly_payment 20000000 short 3 ≡ 6755800
unfolding calculate_monthly_payment
payment_run = refl

evaluate_credit_score_debt_example :
    (evaluate_credit_score [] dto).0 ≤ (evaluate_credit_score (active_loan ∷ []) dto).0
evaluate_credit_score_debt_example =
    evaluate_credit_score_debt [] (active_loan ∷ []) dto refl refl (omega arith)

calculate_monthly_payment_covers_example :
    2 * 20000000 ≤ 2 * (calculate_monthly_payment 20000000 short 3 * 3) + cent * 3
calculate_monthly_payment_covers_example =
    calculate_monthly_payment_covers 20000000 short 3 (omega arith)

attempts_limited_example : (attempts clients env 7 5 state).0 ≡ ok 3
attempts_limited_example = attempts_limited clients env 7 5 state

abbrev first_due : Repayment
first_due = record {
  id = 101;
  loan_id = 1;
  due_date = 5000;
  amount = 1000;
  paid_amount = 0;
  status = RepaymentStatus.pending;
  paid_at = none;
  penalty_amount = 50;
  created_at = 5000;
  updated_at = 5000;
}

abbrev second_due : Repayment
second_due = record first_due { id = 102; penalty_amount = 0 }

abbrev owing : State Counters
owing = record state { db = record (state.db) { repayments = first_due ∷ second_due ∷ [] } }

pay_off_total_example :
    (last' : Option Repayment) × (rows : List Repayment) × (pay_off clients env
        (first_due ∷ second_due ∷ [])
        1500
        none
        owing
      ≡ (ok last', record owing { db = record (owing.db) { repayments = rows } }))
    × (sum (λ r. r.paid_amount) rows ≡ 1500)
pay_off_total_example =
    pay_off_total clients env (first_due ∷ second_due ∷ []) 1500 none owing
      (refl, (λ e. omega (arith, e), tt), (refl, tt, tt))

reject_run : reject_loan clients env 1 99 "risk" state ≡ (
  ok (change_loan 5000 (rejection env 99 "risk") pending_loan),
  (reject_loan clients env 1 99 "risk" state).1,
)
reject_run =
    ap (λ r. (r.0, (reject_loan clients env 1 99 "risk" state).1))
      (reject_loan_lem clients env 1 99 "risk" state refl refl)

reject_loan_final_example :
    let s' = (reject_loan clients env 1 99 "risk" state).1 in
    (approve_loan clients env 1 98 s' ≡ (err bad_request, s'))
    × (reject_loan clients env 1 98 "late" s' ≡ (err bad_request, s'))
reject_loan_final_example =
    reject_loan_final clients env env 1 99 98 "risk" "late" state
      (reject_loan clients env 1 99 "risk" state).1 reject_run

Fresh-schedule : Fresh (schedule env 1 6755800 1 3) []
unfolding schedule
Fresh-schedule = (refl, (refl, (refl, tt)))

approve_loan_activates_example :
    let approved = change_loan 5000 (approval env 99) pending_loan in
    let (answer, s') = approve_loan clients env 1 99 state in
    (answer ≡ ok approved)
    × (find? (has_id 1) s'.db.loans ≡ some (change_loan 5000 (disbursal env 99) approved))
    × (s'.db.repayments ≡ [] ++ schedule env 1 6755800 1 3)
approve_loan_activates_example =
    approve_loan_activates clients env 1 99 state refl refl Fresh-schedule

-- A loan whose only repayment is paid.
abbrev settled : State Counters
settled = record state {
  db = record {
    loans = record active_loan { id = 1 } ∷ [];
    repayments = record first_due { status = RepaymentStatus.paid } ∷ [];
    scores = [];
  };
}

check_and_complete_loan-completes_example :
    find? (has_id 1) (check_and_complete_loan clients env 1 settled).1.db.loans
    ≡ some (change_loan 5000 (no_change LoanStatus.completed) (record active_loan { id = 1 }))
check_and_complete_loan-completes_example =
    check_and_complete_loan-completes clients env 1 settled refl
