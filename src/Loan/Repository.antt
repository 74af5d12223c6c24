-- ===== src/Loan/Repository.antt =====
-- loan.repository.ts: the queries and writes of `LoanRepository`.
pub mod Calls
use nexapay_fintech_super_ap.Common.{
  ℕ, zero, suc, ◌+◌, Bool, true, false, Option, none, some, List, [], ◌∷◌, ◌++◌, ◌==◌, ltb, ◌&&◌,
  ◌||◌, length, or_else, if◌then◌else◌,
}
use nexapay_fintech_super_ap.Common.Int.{ℤ, pos}
use nexapay_fintech_super_ap.Common.Action.{
  Action, ◌>>=◌, ◌>>◌, pure, gets, modify, or_throw, unique_violation, record_required,
  validation_failed,
}
use nexapay_fintech_super_ap.Loan.Entities.{
  Repayment, Loan, Factors, CreditScore, LoanChange, RepaymentChange, Db, Clients, Env, is_due,
}

-- A field that an update is given, or the old one.
abbrev pub given {ℓ} : {A : Type ℓ} → Option A → Option A → Option A
given none old = old
given (some new) old = some new

abbrev pub has_id : ℕ → Loan → Bool
has_id id loan = loan.id == id

abbrev pub of_user : ℕ → Loan → Bool
of_user user_id loan = loan.user_id == user_id

abbrev pub of_loan : ℕ → Repayment → Bool
of_loan loan_id r = r.loan_id == loan_id

abbrev pub change_loan : ℕ → LoanChange → Loan → Loan
change_loan now data_ loan = record loan {
  status = data_.status;
  updated_at = now;
  approved_at = given data_.approved_at loan.approved_at;
  approved_by = given data_.approved_by loan.approved_by;
  rejected_at = given data_.rejected_at loan.rejected_at;
  rejected_by = given data_.rejected_by loan.rejected_by;
  rejected_reason = given data_.rejected_reason loan.rejected_reason;
  disbursed_at = given data_.disbursed_at loan.disbursed_at;
}

abbrev pub change_repayment : ℕ → RepaymentChange → Repayment → Repayment
change_repayment now data_ r = record r {
  paid_amount = or_else data_.paid_amount r.paid_amount;
  status = or_else data_.status r.status;
  paid_at = given data_.paid_at r.paid_at;
  penalty_amount = or_else data_.penalty_amount r.penalty_amount;
  updated_at = now;
}

module _ {R : Type 0} (c : Clients R) where
  pub create_loan : Loan → Action Db Loan
  create_loan loan = do
    created ← gets (λ d. c.loans.create (has_id loan.id) loan d.loans)
    rows ← or_throw created unique_violation
    modify (λ d. record d { loans = rows })
    pure loan

  pub find_loan_by_id : ℕ → Action Db (Option Loan)
  find_loan_by_id id = gets (λ d. c.loans.find_unique (has_id id) d.loans)

  pub find_loans_by_user_id : ℕ → Action Db (List Loan)
  find_loans_by_user_id user_id =
      gets
        (λ d. c.loans.order_desc (λ l. l.created_at) (c.loans.find_many (of_user user_id) d.loans))

  pub find_all_loans : ℕ → ℕ → Action Db (List Loan)
  find_all_loans skip size = do
    page ← gets (λ d. c.loans.find_page (λ _. true) (λ l. l.created_at) (pos skip) size d.loans)
    or_throw page validation_failed

  pub count_all_loans : Action Db ℕ
  count_all_loans = gets (λ d. c.loans.count (λ _. true) d.loans)

  pub update_loan_status : Env → ℕ → LoanChange → Action Db Loan
  update_loan_status env id data_ = do
    (loan, rows) ←
        or_throw (← gets (λ d. c.loans.update (has_id id) (change_loan env.now data_) d.loans))
          record_required
    modify (λ d. record d { loans = rows })
    pure loan

  pub create_repayment : Repayment → Action Db (Unit {0})
  create_repayment r = do
    created ← gets (λ d. c.repayments.create (λ x. x.id == r.id) r d.repayments)
    rows ← or_throw created unique_violation
    modify (λ d. record d { repayments = rows })

  -- The rows that one INSERT of a list of rows leaves.
  pub insert_all : List Repayment → List Repayment → Option (List Repayment)
  insert_all [] rows = some rows
  insert_all (r ∷ rs) rows = elim (c.repayments.create (λ x. x.id == r.id) r rows) [
    | none ↦ none
    | some rows' ↦ insert_all rs rows'
  ]

  -- `createMany` writes all of the rows or none, and returns their number.
  pub create_repayments : List Repayment → Action Db ℕ
  create_repayments rs = do
    rows ← or_throw (← gets (λ d. insert_all rs d.repayments)) unique_violation
    modify (λ d. record d { repayments = rows })
    pure (length rs)

  -- The earliest due first.
  pub find_repayments_by_loan_id : ℕ → Action Db (List Repayment)
  find_repayments_by_loan_id loan_id =
      gets
        (λ d. c.order_asc (λ r. r.due_date) (c.repayments.find_many (of_loan loan_id) d.repayments))

  pub find_overdue_repayments : Env → Action Db (List Repayment)
  find_overdue_repayments env =
      gets
        (λ d. c.repayments.find_many (λ r. ltb r.due_date env.now && is_due r.status) d.repayments)

  pub update_repayment : Env → ℕ → RepaymentChange → Action Db Repayment
  update_repayment env id data_ = do
    (r, rows) ←
        or_throw
          (← gets (λ d.
            c.repayments.update (λ x. x.id == id) (change_repayment env.now data_) d.repayments))
          record_required
    modify (λ d. record d { repayments = rows })
    pure r

  pub find_credit_score_by_user_id : ℕ → Action Db (Option CreditScore)
  find_credit_score_by_user_id user_id =
      gets (λ d. c.scores.find_unique (λ x. x.user_id == user_id) d.scores)

  -- The row of a user's score is written over, or made.
  pub upsert_credit_score : Env → ℕ → ℕ → Factors → Action Db (Unit {0})
  upsert_credit_score env user_id score factors = do
    existing ← find_credit_score_by_user_id user_id
    rows ← elim existing [
      | none ↦ do
        created ← gets (λ d.
            c.scores.create (λ x. x.id == env.score_uuid || x.user_id == user_id)
              (record {
                id = env.score_uuid;
                user_id = user_id;
                score = score;
                factors = factors;
                last_updated = env.now;
                created_at = env.now;
              })
              d.scores)
        or_throw created unique_violation
      | some _ ↦ do
        (_, rows) ←
            or_throw
              (← gets (λ d.
                c.scores.update (λ x. x.user_id == user_id)
                  (λ x. record x { score = score; factors = factors; last_updated = env.now })
                  d.scores))
              record_required
        pure rows
    ]
    modify (λ d. record d { scores = rows })
