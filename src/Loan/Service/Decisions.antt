-- ===== src/Loan/Service/Decisions.antt =====
-- loan.service.ts, `approveLoan` and `rejectLoan`.
use nexapay_fintech_super_ap.Common.{
  ℕ, ◌≡◌, refl, sym, ◌∙◌, ap, true, false, none, some, List, ◌++◌, or_else, Bool-cases,
  Option-cases, inl, inr,
}
use nexapay_fintech_super_ap.Common.Rows.{find?, replace, find?-holds, find?-replace_self}
use nexapay_fintech_super_ap.Common.Action.{ok, err, bad_request, not_found}
use Prim.Native.String.{String}
use nexapay_fintech_super_ap.Loan.Entities.{
  LoanStatus, Loan, LoanChange, Clients, State, Env, Event, disbursed, same_status,
}
use nexapay_fintech_super_ap.Loan.Repository.{has_id, change_loan}
use nexapay_fintech_super_ap.Loan.Repository.Calls.{
  Fresh, find_loan_by_id_lem, update_loan_status_lem, create_repayments_lem,
}
use nexapay_fintech_super_ap.Loan.Service.{
  approve_loan, reject_loan, get_loan_by_id, disburse_loan, generate_repayment_schedule, no_change,
  emit_kafka_event,
}
use nexapay_fintech_super_ap.Loan.Terms.{schedule}

-- What an approval and then the disbursal write to the loan.
abbrev pub approval : Env → ℕ → LoanChange
approval env admin_id = record (no_change LoanStatus.approved) {
  approved_at = some env.now;
  approved_by = some admin_id;
}

abbrev pub disbursal : Env → ℕ → LoanChange
disbursal env admin_id = record (no_change LoanStatus.active) {
  approved_by = some admin_id;
  disbursed_at = some env.now;
}

abbrev pub rejection : Env → ℕ → String → LoanChange
rejection env admin_id reason = record (no_change LoanStatus.rejected) {
  rejected_at = some env.now;
  rejected_by = some admin_id;
  rejected_reason = some reason;
}

pub find?-changed :
    (env : Env) (id : ℕ) (change : LoanChange) (loans : List Loan) {loan : Loan}
    → find? (has_id id) loans ≡ some loan
    → find? (has_id id) (replace (has_id id) (change_loan env.now change) loans)
      ≡ some (change_loan env.now change loan)
find?-changed env id change loans {loan} found =
    find?-replace_self (has_id id) (change_loan env.now change) loans
      (find?-holds (has_id id) loans {w = loan} found) found

module _ {R : Type 0} (c : Clients R) where
  get_loan_by_id-found :
      (id : ℕ) (s : State R) {loan : Loan}
      → find? (has_id id) s.db.loans ≡ some loan
      → get_loan_by_id c id s ≡ (ok loan, s)
  unfolding get_loan_by_id
  get_loan_by_id-found id s found = rw (find_loan_by_id_lem c id s.db) (rw found refl)

  get_loan_by_id-missing :
      (id : ℕ) (s : State R)
      → find? (has_id id) s.db.loans ≡ none
      → get_loan_by_id c id s ≡ (err not_found, s)
  unfolding get_loan_by_id
  get_loan_by_id-missing id s missing = rw (find_loan_by_id_lem c id s.db) (rw missing refl)

  -- A loan that is not pending can be neither approved nor rejected.
  pub decided :
      (env : Env) (id admin_id : ℕ) (reason : String) (s : State R) {loan : Loan}
      → find? (has_id id) s.db.loans ≡ some loan
      → same_status loan.status LoanStatus.pending ≡ false
      → (approve_loan c env id admin_id s ≡ (err bad_request, s))
        × (reject_loan c env id admin_id reason s ≡ (err bad_request, s))
  unfolding approve_loan reject_loan
  decided env id admin_id reason s found closed =
      rw (get_loan_by_id-found id s found) (rw closed (refl, refl))

  emit_kafka_event_lem :
      (env : Env) (e : Event) (s : State R)
      → emit_kafka_event c env e s
        ≡ (ok tt, record s { events = (emit_kafka_event c env e s).1.events })
  unfolding emit_kafka_event
  emit_kafka_event_lem env e s = elim (Bool-cases env.delivered) [
    | inl d ↦ rw d refl
    | inr d ↦ rw d refl
  ]

  pub reject_loan_lem :
      (env : Env) (id admin_id : ℕ) (reason : String) (s : State R) {loan : Loan}
      → find? (has_id id) s.db.loans ≡ some loan
      → same_status loan.status LoanStatus.pending ≡ true
      → reject_loan c env id admin_id reason s ≡ (
        ok (change_loan env.now (rejection env admin_id reason) loan),
        record s {
          db = record (s.db) {
            loans =
                replace
                  (has_id id)
                  (change_loan env.now (rejection env admin_id reason))
                  s.db.loans;
          };
        },
      )
  unfolding reject_loan
  reject_loan_lem env id admin_id reason s found still = rw (get_loan_by_id-found id s found) (
      rw still
        (rw (update_loan_status_lem c env id (rejection env admin_id reason) s.db found) refl))

  reject_loan-missing :
      (env : Env) (id admin_id : ℕ) (reason : String) (s : State R)
      → find? (has_id id) s.db.loans ≡ none
      → reject_loan c env id admin_id reason s ≡ (err not_found, s)
  unfolding reject_loan
  reject_loan-missing env id admin_id reason s missing =
      rw (get_loan_by_id-missing id s missing) refl

  -- A rejection is final: after one that succeeds, every approval and every further rejection of
  -- the same loan throws a bad request and changes nothing.
  pub reject_loan_final :
      (env env' : Env) (id admin admin' : ℕ) (reason reason' : String) (s s' : State R) {l : Loan}
      → reject_loan c env id admin reason s ≡ (ok l, s')
      → (approve_loan c env' id admin' s' ≡ (err bad_request, s'))
        × (reject_loan c env' id admin' reason' s' ≡ (err bad_request, s'))
  reject_loan_final env env' id admin admin' reason reason' s s' {l} e =
      elim (Option-cases (find? (has_id id) s.db.loans)) [
        | inl missing ↦ let h = sym (reject_loan-missing env id admin reason s missing) ∙ e in cc
        | inr (loan, found) ↦ elim (Bool-cases (same_status loan.status LoanStatus.pending)) [
          | inl still ↦
              let done = reject_loan_lem env id admin reason s found still in
              decided env' id admin' reason' s'
                {loan = change_loan env.now (rejection env admin reason) loan}
                (ap (λ r. find? (has_id id) r.1.db.loans) (sym e ∙ done)
                  ∙ find?-changed env id (rejection env admin reason) s.db.loans found)
                refl
          | inr closed ↦ let h = sym (decided env id admin reason s found closed).1 ∙ e in cc
        ]
      ]

  generate_lem :
      (env : Env) (id : ℕ) (loan : Loan) (s : State R)
      → let rows = schedule env id (or_else loan.monthly_payment 0) 1 loan.term_months in
        Fresh rows s.db.repayments
        → generate_repayment_schedule c env id loan s
          ≡ (ok tt, record s { db = record (s.db) { repayments = s.db.repayments ++ rows } })
  unfolding generate_repayment_schedule
  generate_lem env id loan s fresh =
      let rows = schedule env id (or_else loan.monthly_payment 0) 1 loan.term_months in
      rw (create_repayments_lem c rows s.db fresh) refl

  -- A pending loan that is approved ends active, not approved, whatever the returned entity says:
  -- if the ids of the new repayments are fresh, the call returns the loan with status `APPROVED`,
  -- stores it with status `ACTIVE` and its date of disbursal, and adds its whole schedule to the
  -- repayments.
  pub approve_loan_activates :
      (env : Env) (id admin_id : ℕ) (s : State R) {loan : Loan}
      → find? (has_id id) s.db.loans ≡ some loan
      → same_status loan.status LoanStatus.pending ≡ true
      → Fresh (schedule env id (or_else loan.monthly_payment 0) 1 loan.term_months) s.db.repayments
      → let approved = change_loan env.now (approval env admin_id) loan in
        let (answer, s') = approve_loan c env id admin_id s in
        (answer ≡ ok approved)
        × (find? (has_id id) s'.db.loans
            ≡ some (change_loan env.now (disbursal env admin_id) approved))
        × (s'.db.repayments
            ≡ s.db.repayments
              ++ schedule env id (or_else loan.monthly_payment 0) 1 loan.term_months)
  unfolding approve_loan disburse_loan
  approve_loan_activates env id admin_id s {loan} found still fresh =
      let approved = change_loan env.now (approval env admin_id) loan in
      let s1 : State R = record s {
        db = record (s.db) {
          loans = replace (has_id id) (change_loan env.now (approval env admin_id)) s.db.loans;
        };
      } in
      let rows = schedule env id (or_else loan.monthly_payment 0) 1 loan.term_months in
      let s2 : State R = record s1 {
        db = record (s1.db) { repayments = s.db.repayments ++ rows };
      } in
      let s3 : State R = record s2 {
        db = record (s2.db) {
          loans = replace (has_id id) (change_loan env.now (disbursal env admin_id)) s2.db.loans;
        };
      } in
      let ev : Event = record {
        event = disbursed;
        loan_id = id;
        user_id = loan.user_id;
        amount = loan.amount;
        timestamp = env.now;
        metadata = some (record {
          interest_rate = loan.interest_rate;
          term_months = loan.term_months;
          monthly_payment = loan.monthly_payment;
        });
      } in
      let found' = find?-changed env id (approval env admin_id) s.db.loans found in
      rw (get_loan_by_id-found id s found) (
        rw still (
          rw (update_loan_status_lem c env id (approval env admin_id) s.db found) (
            rw (generate_lem env id approved s1 fresh) (
              rw (get_loan_by_id-found id s2 found') (
                rw (update_loan_status_lem c env id (disbursal env admin_id) s2.db found') (
                  rw (emit_kafka_event_lem env ev s3) (
                    refl,
                    find?-changed env id (disbursal env admin_id) s2.db.loans found',
                    refl,
                  )))))))
