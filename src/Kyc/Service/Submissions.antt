-- ===== src/Kyc/Service/Submissions.antt =====
-- kyc.service.ts, `submitKyc`: what becomes of a submission.
use nexapay_fintech_super_ap.Common.{ℕ, ◌≡◌, refl, ◌||◌, Bool-cases, inl, inr, if◌then◌else◌}
use nexapay_fintech_super_ap.Common.Rows.{find?}
use nexapay_fintech_super_ap.Common.Action.{err, conflict, validation_failed}
use nexapay_fintech_super_ap.Kyc.Entities.{pending, verified, SubmitKycDto, State, Clients, Env}
use nexapay_fintech_super_ap.Kyc.Repository.{of_user}
use nexapay_fintech_super_ap.Kyc.Repository.Calls.{
  left_behind, find_by_user_id_lem, store_documents_refused,
}
use nexapay_fintech_super_ap.Kyc.Service.{submit_kyc, has_status}

module _ (c : Clients) (env : Env) (user_id : ℕ) where
  -- No submission ever succeeds. One that a pending or verified record bars throws a conflict and
  -- changes nothing; any other is refused by the document store and writes no KYC record, but leaves
  -- the front image's document behind, unless the image is empty, when it changes nothing.
  pub submit_kyc_refused :
      (dto : SubmitKycDto) (s : State)
      → let existing = find? (of_user user_id) s.kycs in
        submit_kyc c env user_id dto s ≡ (
          if has_status verified existing || has_status pending existing
          then (err conflict, s)
          else (err validation_failed, left_behind env user_id dto.id_doc_front s))
  unfolding submit_kyc
  submit_kyc_refused dto s =
      let existing = find? (of_user user_id) s.kycs in
      let stored =
        store_documents_refused c env user_id dto.id_doc_front dto.id_doc_back dto.liveness_video
          dto.selfie s in
      elim (Bool-cases (has_status verified existing)) [
        | inl v ↦ rw (find_by_user_id_lem c env user_id s) (rw v refl)
        | inr nv ↦ elim (Bool-cases (has_status pending existing)) [
          | inl p ↦ rw (find_by_user_id_lem c env user_id s) (rw nv (rw p refl))
          | inr np ↦ rw (find_by_user_id_lem c env user_id s) (rw nv (rw np (rw stored refl)))
        ]
      ]
