-- ===== src/Loan/Repository/Calls.antt =====
-- loan.repository.ts: what the calls on loans and repayments return, as equations.
use nexapay_fintech_super_ap.Common.{
  none, filter, ap, length, ◌∙◌, ℕ, ◌≡◌, refl, some, List, ◌==◌, Bool, [], ◌∷◌, ◌++◌, any, false,
}
use mathlib.Core.List.{append-nil, append_assoc}
use nexapay_fintech_super_ap.Common.Rows.{find?, replace}
use nexapay_fintech_super_ap.Common.Action.{ok}
use nexapay_fintech_super_ap.Loan.Entities.{
  Loan, Repayment, LoanChange, RepaymentChange, Db, Clients, Env,
}
use nexapay_fintech_super_ap.Loan.Repository.{
  has_id, find_loan_by_id, update_loan_status, update_repayment, change_loan, change_repayment,
  insert_all, find_repayments_by_loan_id, of_loan, create_repayments,
}

-- The row of an id.
abbrev pub is_row : ℕ → Repayment → Bool
is_row id r = r.id == id

-- No id of the new rows is taken, and they differ.
abbrev pub Fresh : List Repayment → List Repayment → Type 0
Fresh [] rows = Unit
Fresh (r ∷ rs) rows = (any (is_row r.id) rows ≡ false) × Fresh rs (rows ++ r ∷ [])

module _ {R : Type 0} (c : Clients R) where
  pub find_loan_by_id_lem :
      (id : ℕ) (d : Db) → find_loan_by_id c id d ≡ (ok (find? (has_id id) d.loans), d)
  unfolding find_loan_by_id
  find_loan_by_id_lem id d = rw (c.loans.find_unique_lem (has_id id) d.loans)

  pub update_loan_status_lem :
      (env : Env) (id : ℕ) (change : LoanChange) (d : Db) {loan : Loan}
      → find? (has_id id) d.loans ≡ some loan
      → update_loan_status c env id change d ≡ (
        ok (change_loan env.now change loan),
        record d { loans = replace (has_id id) (change_loan env.now change) d.loans },
      )
  unfolding update_loan_status
  update_loan_status_lem env id change d e =
      rw (c.loans.update_some (has_id id) (change_loan env.now change) d.loans e)

  pub update_repayment_lem :
      (env : Env) (id : ℕ) (change : RepaymentChange) (d : Db) {r : Repayment}
      → find? (is_row id) d.repayments ≡ some r
      → update_repayment c env id change d ≡ (
        ok (change_repayment env.now change r),
        record d {
          repayments = replace (is_row id) (change_repayment env.now change) d.repayments;
        },
      )
  unfolding update_repayment
  update_repayment_lem env id change d e =
      rw (c.repayments.update_some (is_row id) (change_repayment env.now change) d.repayments e)

  insert_all_lem :
      (rs rows : List Repayment) → Fresh rs rows → insert_all c rs rows ≡ some (rows ++ rs)
  unfolding insert_all
  insert_all_lem [] rows fresh = rw append-nil refl
  insert_all_lem (r ∷ rs) rows (first, rest) =
      let created : c.repayments.create (is_row r.id) r rows ≡ some (rows ++ r ∷ []) =
        rw (c.repayments.create_lem (is_row r.id) r rows) (rw first refl) in
      ap (λ o. elim o [ none ↦ none | some rows' ↦ insert_all c rs rows' ]) created
      ∙ insert_all_lem rs (rows ++ r ∷ []) rest
      ∙ ap some (append_assoc rows (r ∷ []) rs)

  -- `createMany` of rows with fresh ids adds them all.
  pub create_repayments_lem :
      (rs : List Repayment) (d : Db)
      → Fresh rs d.repayments
      → create_repayments c rs d ≡ (ok (length rs), record d { repayments = d.repayments ++ rs })
  unfolding create_repayments
  create_repayments_lem rs d fresh = rw (insert_all_lem rs d.repayments fresh) refl

  pub find_repayments_by_loan_id_lem :
      (id : ℕ) (d : Db)
      → find_repayments_by_loan_id c id d
        ≡ (ok (c.order_asc (λ r. r.due_date) (filter (of_loan id) d.repayments)), d)
  unfolding find_repayments_by_loan_id
  find_repayments_by_loan_id_lem id d = rw (c.repayments.find_many_lem (of_loan id) d.repayments)
