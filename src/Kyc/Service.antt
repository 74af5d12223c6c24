-- ===== src/Kyc/Service.antt =====
-- kyc.service.ts: the methods of `KycService`.
pub mod Reviews
pub mod Submissions
use nexapay_fintech_super_ap.Common.{
  ℕ, Bool, true, false, not, Option, none, some, List, [], ◌∷◌, ◌++◌, if◌then◌else◌,
}
use nexapay_fintech_super_ap.Common.Action.{
  Action, ◌>>=◌, ◌>>◌, pure, throw, throw_if, modify, or_throw, conflict, not_found, bad_request,
}
use nexapay_fintech_super_ap.Kyc.Entities.{
  KycStatus, pending, verified, rejected, Kyc, SubmitKycDto, ReviewKycDto, Topic, kyc_verified,
  kyc_rejected, Event, State, Clients, Env, same_status,
}
use nexapay_fintech_super_ap.Kyc.Repository.{
  find_by_id, find_by_user_id, update, upsert, find_by_status, store_documents,
}

abbrev pub has_status : KycStatus → Option Kyc → Bool
has_status status none = false
has_status status (some k) = same_status k.status status

abbrev pub reviewed : Env → ReviewKycDto → ℕ → Kyc → Kyc
reviewed env dto reviewer_id k = record k {
  status = if dto.approved then verified else rejected;
  reviewed_by = some reviewer_id;
  reviewed_at = some env.now;
  rejection_reason = dto.rejection_reason;
  updated_at = env.now;
}

abbrev pub topic_of : KycStatus → Topic
topic_of verified = kyc_verified
topic_of _ = kyc_rejected

pub emit_kyc_event : Env → ℕ → KycStatus → Action State (Unit {0})
emit_kyc_event env user_id status = modify (λ s.
    if env.delivered
    then record s {
      events =
          s.events
          ++ record {
            topic = topic_of status;
            user_id = user_id;
            status = status;
            timestamp = env.now;
          }
            ∷ [];
    }
    else s)

module _ (c : Clients) where
  pub submit_kyc : Env → ℕ → SubmitKycDto → Action State Kyc
  submit_kyc env user_id dto = do
    existing ← find_by_user_id c user_id
    throw_if (has_status verified existing) conflict
    throw_if (has_status pending existing) conflict
    docs ←
        store_documents c env user_id dto.id_doc_front dto.id_doc_back dto.liveness_video dto.selfie
    upsert c env user_id pending dto.id_doc_type docs

  pub get_kyc_status : ℕ → Action State (KycStatus × Option Kyc)
  get_kyc_status user_id = do
    kyc ← find_by_user_id c user_id
    elim kyc [ none ↦ pure (pending, none) | some k ↦ pure (k.status, some k) ]

  pub review_kyc : Env → ℕ → ReviewKycDto → ℕ → Action State Kyc
  review_kyc env kyc_id dto reviewer_id = do
    kyc ← or_throw (← find_by_id c kyc_id) not_found
    throw_if (not (same_status kyc.status pending)) bad_request
    updated ← update c kyc_id (reviewed env dto reviewer_id)
    emit_kyc_event env updated.user_id (if dto.approved then verified else rejected)
    pure updated

  pub get_pending_kycs : Action State (List Kyc)
  get_pending_kycs = find_by_status c pending
