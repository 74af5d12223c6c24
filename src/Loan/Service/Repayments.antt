-- ===== src/Loan/Service/Repayments.antt =====
-- loan.service.ts, `repayLoan`: the loop, and where the payment goes.
use nexapay_fintech_super_ap.Common.{
  ℕ, ◌+◌, ◌-◌, ◌≡◌, ◌≢◌, refl, sym, ◌∙◌, Option, some, List, [], ◌∷◌, ◌==◌, min, sum, All, arith,
  Bool-cases, inl, inr, eq_of_==, ne→not-==,
}
use nexapay_fintech_super_ap.Common.Rows.{find?, replace, sum-replace, find?-replace_other}
use nexapay_fintech_super_ap.Common.Action.{ok}
use nexapay_fintech_super_ap.Loan.Entities.{Repayment, Clients, State, Env}
use nexapay_fintech_super_ap.Loan.Repository.{change_repayment}
use nexapay_fintech_super_ap.Loan.Repository.Calls.{is_row, update_repayment_lem}
use nexapay_fintech_super_ap.Loan.Service.{pay_off, payment_change}
use nexapay_fintech_super_ap.Loan.Terms.{due_amount}

-- The rows are stored as they were read, each under an id of its own.
abbrev pub Stored : List Repayment → List Repayment → Type 0
Stored [] rows = Unit
Stored (r ∷ rs) rows =
    (find? (is_row r.id) rows ≡ some r) × All (λ x. x.id ≢ r.id) rs × Stored rs rows

-- The write of one row leaves the others stored.
Stored-replace :
    (id : ℕ) (f : Repayment → Repayment) (rs rows : List Repayment)
    → ((x : Repayment) → (f x).id ≡ x.id)
    → All (λ x. x.id ≢ id) rs
    → Stored rs rows
    → Stored rs (replace (is_row id) f rows)
Stored-replace id f [] rows same ne stored = tt
Stored-replace id f (r ∷ rs) rows same (ne, nes) (found, apart, stored) = (
  find?-replace_other (is_row id) (is_row r.id) f rows
        (λ x e. ne→not-== x.id r.id (λ h. ne (sym h ∙ eq_of_== x.id id e)))
        (λ x e. ne→not-== (f x).id r.id (λ h. ne (sym h ∙ same x ∙ eq_of_== x.id id e)))
      ∙ found,
  apart,
  Stored-replace id f rs rows same nes stored,
)

split_payment :
    (remaining due rest : ℕ)
    → min remaining due + min (remaining - min remaining due) rest ≡ min remaining (due + rest)
split_payment remaining due rest = omega arith

module _ {R : Type 0} (c : Clients R) (env : Env) where
  -- Where the rows that are due are stored, each under its own id, the loop returns; what it adds
  -- to the rows' paid amounts is all of the payment, or all that is due on the rows where the
  -- payment is more; and it changes nothing but repayments.
  pub pay_off_total :
      (rs : List Repayment) (remaining : ℕ) (last : Option Repayment) (s : State R)
      → Stored rs s.db.repayments
      → (last' : Option Repayment) × (rows : List Repayment) × (pay_off c env rs remaining last s
          ≡ (ok last', record s { db = record (s.db) { repayments = rows } }))
        × (sum (λ r. r.paid_amount) rows
            ≡ sum (λ r. r.paid_amount) s.db.repayments + min remaining (sum due_amount rs))
  unfolding pay_off payment_change
  pay_off_total [] remaining last s stored = (last, s.db.repayments, refl, omega arith)
  pay_off_total (r ∷ rs) remaining last s (found, apart, stored) =
      elim (Bool-cases (remaining == 0)) [
        | inl e ↦
            let z = eq_of_== remaining 0 e in (last, s.db.repayments, rw e refl, omega (arith, z))
        | inr e ↦
            let paid = min remaining (due_amount r) in
            let f = change_repayment env.now (payment_change env r paid) in
            let s' : State R = record s {
              db = record (s.db) { repayments = replace (is_row r.id) f s.db.repayments };
            } in
            let (last', rows, run, total) =
              pay_off_total rs (remaining - paid) (some (f r)) s'
                (Stored-replace r.id f rs s.db.repayments (λ x. refl) apart stored) in
            (
              last',
              rows,
              rw e
                  (rw (update_repayment_lem c env r.id (payment_change env r paid) s.db found) run),
              omega (
                arith,
                total,
                split_payment remaining (due_amount r) (sum due_amount rs),
                sum-replace (λ x. x.paid_amount) (is_row r.id) f s.db.repayments found,
              ),
            )
      ]
