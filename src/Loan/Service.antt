-- ===== src/Loan/Service.antt =====
-- loan.service.ts: the methods of `LoanService`.
pub mod Repayments
pub mod RateLimit
pub mod Decisions
pub mod Completion
use nexapay_fintech_super_ap.Common.{
  ℕ, zero, suc, ◌+◌, ◌-◌, ◌*◌, ◌/◌, ◌^◌, min, max, Bool, true, false, not, ◌&&◌, ◌||◌, Option, none,
  some, List, [], ◌∷◌, ◌++◌, ◌==◌, ltb, leb, length, filter, all, any, sum, or_else, if◌then◌else◌,
}
use nexapay_fintech_super_ap.Common.Action.{
  Result, Action, ◌>>=◌, ◌>>◌, pure, gets, modify, throw, throw_if, or_throw, not_found,
  bad_request, forbidden, too_many_requests,
}
use Prim.Native.String.{String}
use nexapay_fintech_super_ap.Loan.Entities.{
  LoanStatus, RepaymentStatus, Repayment, TermType, short, medium, long, Loan, Factors, CreditScore,
  ApplyLoanDto, RepayLoanDto, LoanChange, RepaymentChange, EventName, repaid, disbursed, Terms,
  Event, Db, Clients, State, Env, same_status, is_due, is_closed, is_defaulted,
}
use nexapay_fintech_super_ap.Loan.Terms.{
  due_amount, get_term_type, calculate_monthly_payment, schedule, evaluate_credit_score,
}
use nexapay_fintech_super_ap.Loan.Repository.{
  create_loan, find_loan_by_id, find_loans_by_user_id, find_all_loans, count_all_loans,
  update_loan_status, create_repayments, find_repayments_by_loan_id, find_overdue_repayments,
  update_repayment, find_credit_score_by_user_id, upsert_credit_score,
}

abbrev pub rate_limit_window : ℕ
rate_limit_window = 3600000

abbrev pub rate_limit_max : ℕ
rate_limit_max = 3

abbrev pub grace_period_days : ℕ
grace_period_days = 3

-- A day in milliseconds.
abbrev pub day : ℕ
day = 86400000

abbrev pub no_change : LoanStatus → LoanChange
no_change status = record {
  status = status;
  approved_at = none;
  approved_by = none;
  rejected_at = none;
  rejected_by = none;
  rejected_reason = none;
  disbursed_at = none;
}

-- What is written of a repayment that a payment reaches.
pub payment_change : Env → Repayment → ℕ → RepaymentChange
payment_change env r paid =
    let new_paid_amount = r.paid_amount + paid in
    let is_fully_paid = leb (due_amount r) new_paid_amount in
    record {
      paid_amount = some new_paid_amount;
      status = if is_fully_paid then some RepaymentStatus.paid else none;
      paid_at = if is_fully_paid then some env.now else none;
      penalty_amount = none;
    }

abbrev pub days_overdue : Env → Repayment → ℕ
days_overdue env r = (env.now - r.due_date) / day

-- 0.5 % of the amount for each day.
abbrev pub penalty : Env → Repayment → ℕ
penalty env r = r.amount * days_overdue env r / 200

module _ {R : Type 0} (c : Clients R) where
  abbrev in_db : {A : Type 0} → Action Db A → Action (State R) A
  in_db m s = let (r, d) = m s.db in (r, record s { db = d })

  emit_kafka_event : Env → Event → Action (State R) (Unit {0})
  emit_kafka_event env e =
      modify (λ s. if env.delivered then record s { events = s.events ++ e ∷ [] } else s)

  pub check_rate_limit : Env → ℕ → Action (State R) Bool
  check_rate_limit env user_id = do
    current ← λ s.
        let (n, r) = c.incr env.now user_id s.counters in (Result.ok n, record s { counters = r })
    modify (λ s.
        if current == 1
        then record s { counters = c.expire env.now user_id rate_limit_window s.counters }
        else s)
    pure (leb current rate_limit_max)

  pub get_loan_by_id : ℕ → Action (State R) Loan
  get_loan_by_id id = do loan ← in_db (find_loan_by_id c id); or_throw loan not_found

  pub apply_for_loan : Env → ℕ → ApplyLoanDto → Action (State R) Loan
  apply_for_loan env user_id dto = do
    allowed ← check_rate_limit env user_id
    throw_if (not allowed) too_many_requests
    existing ← in_db (find_loans_by_user_id c user_id)
    let (score, factors) = evaluate_credit_score existing dto
    let rate = get_term_type dto.term_months
    let monthly_payment = calculate_monthly_payment dto.amount rate dto.term_months
    loan ← in_db (
        create_loan c (record {
          id = env.uuid;
          user_id = user_id;
          amount = dto.amount;
          interest_rate = rate;
          term_months = dto.term_months;
          status = LoanStatus.pending;
          purpose = dto.purpose;
          credit_score = some score;
          monthly_payment = some monthly_payment;
          total_payable = some (monthly_payment * dto.term_months);
          created_at = env.now;
          updated_at = env.now;
          approved_at = none;
          approved_by = none;
          rejected_at = none;
          rejected_by = none;
          rejected_reason = none;
          disbursed_at = none;
        }))
    in_db (upsert_credit_score c env user_id score factors)
    pure loan

  -- The loans of a user, or a page of all loans, and their number.
  pub get_loans : Option ℕ → ℕ → ℕ → Action (State R) (List Loan × ℕ)
  get_loans (some user_id) skip size = do
    loans ← in_db (find_loans_by_user_id c user_id)
    pure (loans, length loans)
  get_loans none skip size = do
    loans ← in_db (find_all_loans c skip size)
    total ← in_db (count_all_loans c)
    pure (loans, total)

  pub generate_repayment_schedule : Env → ℕ → Loan → Action (State R) (Unit {0})
  generate_repayment_schedule env loan_id loan = do
    in_db (
        create_repayments c
          (schedule env loan_id (or_else loan.monthly_payment 0) 1 loan.term_months))
    pure tt

  pub disburse_loan : Env → ℕ → ℕ → Action (State R) (Unit {0})
  disburse_loan env loan_id disbursed_by = do
    loan ← get_loan_by_id loan_id
    in_db (
        update_loan_status c env loan_id (record (no_change LoanStatus.active) {
          approved_by = some disbursed_by;
          disbursed_at = some env.now;
        }))
    emit_kafka_event env (record {
      event = disbursed;
      loan_id = loan_id;
      user_id = loan.user_id;
      amount = loan.amount;
      timestamp = env.now;
      metadata = some (record {
        interest_rate = loan.interest_rate;
        term_months = loan.term_months;
        monthly_payment = loan.monthly_payment;
      });
    })

  pub approve_loan : Env → ℕ → ℕ → Action (State R) Loan
  approve_loan env id admin_id = do
    loan ← get_loan_by_id id
    throw_if (not (same_status loan.status LoanStatus.pending)) bad_request
    updated ← in_db (
        update_loan_status c env id (record (no_change LoanStatus.approved) {
          approved_at = some env.now;
          approved_by = some admin_id;
        }))
    generate_repayment_schedule env id updated
    disburse_loan env id admin_id
    pure updated

  pub reject_loan : Env → ℕ → ℕ → String → Action (State R) Loan
  reject_loan env id admin_id reason = do
    loan ← get_loan_by_id id
    throw_if (not (same_status loan.status LoanStatus.pending)) bad_request
    in_db (
        update_loan_status c env id (record (no_change LoanStatus.rejected) {
          rejected_at = some env.now;
          rejected_by = some admin_id;
          rejected_reason = some reason;
        }))

  pub get_repayments : ℕ → Action (State R) (List Repayment)
  get_repayments loan_id = do
    loan ← get_loan_by_id loan_id
    in_db (find_repayments_by_loan_id c loan.id)

  -- The loop of `repayLoan`: the payment that remains, and the last row written.
  pub pay_off : Env → List Repayment → ℕ → Option Repayment → Action (State R) (Option Repayment)
  pay_off env [] remaining last = pure last
  pay_off env (r ∷ rs) remaining last = if remaining == 0 then pure last else do
    let paid = min remaining (due_amount r)
    updated ← in_db (update_repayment c env r.id (payment_change env r paid))
    pay_off env rs (remaining - paid) (some updated)

  pub check_and_complete_loan : Env → ℕ → Action (State R) (Unit {0})
  check_and_complete_loan env loan_id = do
    repayments ← in_db (find_repayments_by_loan_id c loan_id)
    let all_paid = all (λ r. is_closed r.status) repayments
    let has_defaulted = any (λ r. is_defaulted r.status) repayments
    if all_paid && not has_defaulted
        then in_db (update_loan_status c env loan_id (no_change LoanStatus.completed)) >> pure tt
        else pure tt

  pub repay_loan : Env → ℕ → ℕ → RepayLoanDto → Action (State R) (Option Repayment)
  repay_loan env loan_id user_id dto = do
    loan ← get_loan_by_id loan_id
    throw_if (not (loan.user_id == user_id)) forbidden
    throw_if (not (same_status loan.status LoanStatus.active)) bad_request
    repayments ← in_db (find_repayments_by_loan_id c loan_id)
    let due = filter (λ r. is_due r.status) repayments
    throw_if (length due == 0) bad_request
    last ← pay_off env due dto.amount none
    check_and_complete_loan env loan_id
    emit_kafka_event env (record {
      event = repaid;
      loan_id = loan_id;
      user_id = user_id;
      amount = dto.amount;
      timestamp = env.now;
      metadata = none;
    })
    pure last

  pub get_credit_score : ℕ → Action (State R) (Option CreditScore)
  get_credit_score user_id = in_db (find_credit_score_by_user_id c user_id)

  -- A repayment that defaults takes its loan with it.
  pub default_loan : Env → ℕ → Action (State R) (Unit {0})
  default_loan env loan_id = do
    found ← in_db (find_loan_by_id c loan_id)
    elim found [
      | none ↦ pure tt
      | some loan ↦ if same_status loan.status LoanStatus.defaulted then pure tt else do
        in_db (update_loan_status c env loan_id (no_change LoanStatus.defaulted))
        emit_kafka_event env (record {
          event = EventName.defaulted;
          loan_id = loan_id;
          user_id = loan.user_id;
          amount = loan.amount;
          timestamp = env.now;
          metadata = none;
        })
    ]

  -- One round of `processDailyPenalties`.
  pub penalise : Env → Repayment → Action (State R) (Unit {0})
  penalise env r = if ltb (days_overdue env r) grace_period_days then pure tt else do
    let is_default = ltb 30 (days_overdue env r)
    in_db (
        update_repayment c env r.id (record {
          paid_amount = none;
          status = some (if is_default then RepaymentStatus.defaulted else RepaymentStatus.late);
          paid_at = none;
          penalty_amount = some (penalty env r);
        }))
    if is_default then default_loan env r.loan_id else pure tt

  penalise_all : Env → List Repayment → Action (State R) (Unit {0})
  penalise_all env [] = pure tt
  penalise_all env (r ∷ rs) = penalise env r >> penalise_all env rs

  pub process_daily_penalties : Env → Action (State R) (Unit {0})
  process_daily_penalties env = do
    overdue ← in_db (find_overdue_repayments c env)
    penalise_all env overdue
