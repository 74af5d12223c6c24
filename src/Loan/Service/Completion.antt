-- ===== src/Loan/Service/Completion.antt =====
-- loan.service.ts, `checkAndCompleteLoan`: when a repayment completes its loan.
use nexapay_fintech_super_ap.Common.{
  ℕ, ◌≡◌, refl, sym, ◌∙◌, ap, Bool, true, false, not, ◌&&◌, ◌||◌, some, List, [], ◌∷◌, filter, all,
  any, Bool-cases, inl, inr, if◌then◌else◌,
}
use mathlib.Core.Bool.{Bool-set}
use mathlib.Core.List.{Perm, foldr}
use mathlib.Core.List.Perm
use nexapay_fintech_super_ap.Common.Rows.{find?}
use nexapay_fintech_super_ap.Loan.Entities.{
  LoanStatus, RepaymentStatus, Loan, Repayment, Clients, State, Env, is_closed, is_defaulted,
}
use nexapay_fintech_super_ap.Loan.Repository.{has_id, of_loan, change_loan}
use nexapay_fintech_super_ap.Loan.Repository.Calls.{
  find_repayments_by_loan_id_lem, update_loan_status_lem,
}
use nexapay_fintech_super_ap.Loan.Service.{check_and_complete_loan, no_change}
use nexapay_fintech_super_ap.Loan.Service.Decisions.{find?-changed}

abbrev pub is_paid : RepaymentStatus → Bool
is_paid RepaymentStatus.paid = true
is_paid _ = false

-- Closed and not defaulted is paid.
closed_paid :
    (status : RepaymentStatus) (b c : Bool)
    → ((is_closed status && b) && not (is_defaulted status || c)) ≡ (is_paid status && (b && not c))
closed_paid RepaymentStatus.pending b c = refl
closed_paid RepaymentStatus.paid b c = refl
closed_paid RepaymentStatus.late b c = refl
closed_paid RepaymentStatus.defaulted true c = refl
closed_paid RepaymentStatus.defaulted false c = refl

all_paid :
    (rs : List Repayment)
    → (all (λ r. is_closed r.status) rs && not (any (λ r. is_defaulted r.status) rs))
      ≡ all (λ r. is_paid r.status) rs
all_paid [] = refl
all_paid (r ∷ rs) = closed_paid r.status _ _ ∙ ap (λ b. is_paid r.status && b) (all_paid rs)

all-foldr :
    (rs : List Repayment)
    → all (λ r. is_paid r.status) rs ≡ foldr (λ r b. is_paid r.status && b) true rs
all-foldr [] = refl
all-foldr (r ∷ rs) = ap (λ b. is_paid r.status && b) (all-foldr rs)

and_swap : (a b c : Bool) → (a && (b && c)) ≡ (b && (a && c))
and_swap true b c = refl
and_swap false true c = refl
and_swap false false c = refl

all-Perm :
    {rs rs' : List Repayment}
    → Perm rs rs'
    → all (λ r. is_paid r.status) rs ≡ all (λ r. is_paid r.status) rs'
all-Perm {rs} {rs'} p =
    all-foldr rs
    ∙ Perm.foldr-eq Bool-set (λ r b. is_paid r.status && b)
        (λ r r' b. and_swap (is_paid r.status) (is_paid r'.status) b) p true
    ∙ sym (all-foldr rs')

module _ {R : Type 0} (c : Clients R) (env : Env) where
  -- The check after a repayment completes the loan exactly when every repayment of the loan is
  -- paid, in whatever order the database returns them, and leaves the loan as it is otherwise.
  pub check_and_complete_loan-completes :
      (id : ℕ) (s : State R) {loan : Loan}
      → find? (has_id id) s.db.loans ≡ some loan
      → find? (has_id id) (check_and_complete_loan c env id s).1.db.loans
        ≡ some (
            if all (λ r. is_paid r.status) (filter (of_loan id) s.db.repayments)
            then change_loan env.now (no_change LoanStatus.completed) loan
            else loan)
  unfolding check_and_complete_loan
  check_and_complete_loan-completes id s {loan} found =
      let rows = c.order_asc (λ r. r.due_date) (filter (of_loan id) s.db.repayments) in
      let same : (all (λ r. is_closed r.status) rows && not (any (λ r. is_defaulted r.status) rows))
          ≡ all (λ r. is_paid r.status) (filter (of_loan id) s.db.repayments) =
        all_paid rows
        ∙ all-Perm (c.order_asc-perm (λ r. r.due_date) (filter (of_loan id) s.db.repayments)) in
      rw (find_repayments_by_loan_id_lem c id s.db) (
        rw same
          (elim (Bool-cases (all (λ r. is_paid r.status) (filter (of_loan id) s.db.repayments))) [
            | inl e ↦ rw e (
                rw (update_loan_status_lem c env id (no_change LoanStatus.completed) s.db found)
                  (find?-changed env id (no_change LoanStatus.completed) s.db.loans found))
            | inr e ↦ rw e found
          ]))
