-- ===== src/Kyc/Service/Reviews.antt =====
-- kyc.service.ts, `reviewKyc`: repeated reviews of a submission.
use nexapay_fintech_super_ap.Common.{
  ℕ, ◌≡◌, refl, sym, ◌∙◌, ap, true, false, none, some, Bool-cases, Option-cases, inl, inr,
  if◌then◌else◌,
}
use nexapay_fintech_super_ap.Common.Rows.{find?, replace, find?-holds, find?-replace_self}
use nexapay_fintech_super_ap.Common.Action.{ok, err, bad_request, not_found}
use nexapay_fintech_super_ap.Kyc.Entities.{
  Kyc, KycStatus, pending, verified, rejected, ReviewKycDto, State, Clients, Env, same_status,
}
use nexapay_fintech_super_ap.Kyc.Repository.{has_id}
use nexapay_fintech_super_ap.Kyc.Repository.Calls.{find_by_id_lem, update_lem}
use nexapay_fintech_super_ap.Kyc.Service.{review_kyc, reviewed, emit_kyc_event}

-- Neither outcome of a review is `PENDING`.
reviewed_not-pending :
    (env : Env) (dto : ReviewKycDto) (reviewer_id : ℕ) (k : Kyc)
    → same_status (reviewed env dto reviewer_id k).status pending ≡ false
reviewed_not-pending env dto reviewer_id k = elim (Bool-cases dto.approved) [
  | inl e ↦ rw e refl
  | inr e ↦ rw e refl
]

emit_kyc_event_lem :
    (env : Env) (user_id : ℕ) (status : KycStatus) (s : State)
    → emit_kyc_event env user_id status s
      ≡ (ok tt, record s { events = (emit_kyc_event env user_id status s).1.events })
unfolding emit_kyc_event
emit_kyc_event_lem env user_id status s = elim (Bool-cases env.delivered) [
  | inl e ↦ rw e refl
  | inr e ↦ rw e refl
]

module _ (c : Clients) where
  module _ (env : Env) (id : ℕ) (dto : ReviewKycDto) (reviewer_id : ℕ) where
    pub review_kyc-missing :
        (s : State)
        → find? (has_id id) s.kycs ≡ none
        → review_kyc c env id dto reviewer_id s ≡ (err not_found, s)
    unfolding review_kyc
    review_kyc-missing s e = rw (find_by_id_lem c id s) (rw e refl)

    pub review_kyc-closed :
        (s : State) {k : Kyc}
        → find? (has_id id) s.kycs ≡ some k
        → same_status k.status pending ≡ false
        → review_kyc c env id dto reviewer_id s ≡ (err bad_request, s)
    unfolding review_kyc
    review_kyc-closed s e closed = rw (find_by_id_lem c id s) (rw e (rw closed refl))

    pub review_kyc-pending :
        (s : State) {k : Kyc}
        → find? (has_id id) s.kycs ≡ some k
        → same_status k.status pending ≡ true
        → ((review_kyc c env id dto reviewer_id s).0 ≡ ok (reviewed env dto reviewer_id k))
          × ((review_kyc c env id dto reviewer_id s).1.kycs
              ≡ replace (has_id id) (reviewed env dto reviewer_id) s.kycs)
    unfolding review_kyc
    review_kyc-pending s {k} e still =
        let f = reviewed env dto reviewer_id in
        let status = if dto.approved then verified else rejected in
        let s' : State = record s { kycs = replace (has_id id) f s.kycs } in
        rw (find_by_id_lem c id s) (
          rw e (
            rw still (
              rw (update_lem c id f s e)
                (rw (emit_kyc_event_lem env k.user_id status s') (refl, refl)))))

  -- A review ends a submission: after any review that succeeds, every further review of the same
  -- record, whatever it says and whoever gives it, throws a bad request and changes nothing.
  pub review_kyc-review_kyc :
      (env env' : Env) (id : ℕ) (dto dto' : ReviewKycDto) (reviewer reviewer' : ℕ) (s s' : State)
      {k : Kyc}
      → review_kyc c env id dto reviewer s ≡ (ok k, s')
      → review_kyc c env' id dto' reviewer' s' ≡ (err bad_request, s')
  review_kyc-review_kyc env env' id dto dto' reviewer reviewer' s s' {k} e =
      elim (Option-cases (find? (has_id id) s.kycs)) [
        | inl missing ↦ let h = sym (review_kyc-missing env id dto reviewer s missing) ∙ e in cc
        | inr (w, found) ↦ elim (Bool-cases (same_status w.status pending)) [
          | inl still ↦
              let f = reviewed env dto reviewer in
              let rows : s'.kycs ≡ replace (has_id id) f s.kycs =
                ap (λ r. r.1.kycs) (sym e)
                ∙ (review_kyc-pending env id dto reviewer s found still).1 in
              review_kyc-closed env' id dto' reviewer' s' {k = f w}
                (ap (find? (has_id id)) rows
                  ∙ find?-replace_self (has_id id) f s.kycs (find?-holds (has_id id) s.kycs found)
                      found)
                (reviewed_not-pending env dto reviewer w)
          | inr closed ↦
              let h = sym (review_kyc-closed env id dto reviewer s found closed) ∙ e in cc
        ]
      ]
