-- ===== src/Kyc/Repository.antt =====
-- kyc.repository.ts: the queries and writes of `KycRepository`.
pub mod Calls
use nexapay_fintech_super_ap.Common.{
  ◌&&◌, if◌then◌else◌, ℕ, Bool, true, false, Option, none, some, List, [], ◌∷◌, ◌==◌, ◌||◌, ◌≡◌,
  refl,
}
use Prim.Native.String.{String}
use nexapay_fintech_super_ap.Common.Action.{
  Action, Result, ok, err, ◌>>=◌, ◌>>◌, pure, gets, modify, or_throw, unique_violation,
  record_required, validation_failed,
}
use nexapay_fintech_super_ap.Common.Rows.{find?, replace}
use nexapay_fintech_super_ap.Kyc.Entities.{
  KycStatus, Kyc, DocumentModel, DocRecord, State, Clients, Env, same_status,
}

abbrev pub has_id : ℕ → Kyc → Bool
has_id id k = k.id == id

abbrev pub of_user : ℕ → Kyc → Bool
of_user user_id k = k.user_id == user_id

-- The data of an upsert, written over a row: the fields of a review stay.
abbrev pub resubmitted : Env → KycStatus → String → DocRecord → Kyc → Kyc
resubmitted env status id_doc_type docs k = record k {
  status = status;
  id_doc_type = some id_doc_type;
  id_doc_ref = some docs.id_doc_front_id;
  id_doc_back_ref = some docs.id_doc_back_id;
  liveness_video_ref = some docs.liveness_video_id;
  selfie_ref = some docs.selfie_id;
  updated_at = env.now;
}

abbrev pub blank_kyc : Env → ℕ → Kyc
blank_kyc env user_id = record {
  id = env.uuid;
  user_id = user_id;
  status = KycStatus.pending;
  id_doc_type = none;
  id_doc_ref = none;
  id_doc_back_ref = none;
  liveness_video_ref = none;
  selfie_ref = none;
  rejection_reason = none;
  reviewed_by = none;
  reviewed_at = none;
  submitted_at = env.now;
  created_at = env.now;
  updated_at = env.now;
}

abbrev pub blank_document : Env → ℕ → ℕ → DocumentModel
blank_document env user_id id = record {
  id = id;
  user_id = user_id;
  id_doc_front = none;
  id_doc_back = none;
  liveness_video = none;
  selfie = none;
  uploaded_at = env.now;
}

module _ (c : Clients) where
  pub find_by_id : ℕ → Action State (Option Kyc)
  find_by_id id = gets (λ s. c.kycs.find_unique (has_id id) s.kycs)

  pub find_by_user_id : ℕ → Action State (Option Kyc)
  find_by_user_id user_id = gets (λ s. c.kycs.find_unique (of_user user_id) s.kycs)

  pub update : ℕ → (Kyc → Kyc) → Action State Kyc
  update id f = do
    (k, rows) ← or_throw (← gets (λ s. c.kycs.update (has_id id) f s.kycs)) record_required
    modify (λ s. record s { kycs = rows })
    pure k

  pub upsert : Env → ℕ → KycStatus → String → DocRecord → Action State Kyc
  upsert env user_id status id_doc_type docs = do
    existing ← find_by_user_id user_id
    (k, rows) ← elim existing [
      | none ↦ do
        let k = resubmitted env status id_doc_type docs (blank_kyc env user_id)
        rows ←
            or_throw
              (← gets (λ s. c.kycs.create (λ x. has_id env.uuid x || of_user user_id x) k s.kycs))
              unique_violation
        pure (k, rows)
      | some _ ↦ do
        or_throw
            (← gets (λ s.
              c.kycs.update (of_user user_id) (resubmitted env status id_doc_type docs) s.kycs))
            record_required
    ]
    modify (λ s. record s { kycs = rows })
    pure k

  -- The oldest submission first.
  pub find_by_status : KycStatus → Action State (List Kyc)
  find_by_status status = gets (λ s.
      c.order_asc (λ k. k.submitted_at)
        (c.kycs.find_many (λ k. same_status k.status status) s.kycs))

  -- `save` of one document: whether it was taken, and the documents.
  pub saved : DocumentModel → State → Bool × State
  saved d s = elim (c.save d s.documents) [
    | none ↦ (false, s)
    | some ds ↦ (true, record s { documents = ds })
  ]

  -- The four saves of `Promise.all` each take effect; one that is refused refuses them all.
  pub store_documents :
      Env → ℕ → String → Option String → Option String → Option String → Action State DocRecord
  store_documents env user_id front back video selfie s =
      let (a, s1) =
        saved (record (blank_document env user_id env.front_id) { id_doc_front = some front }) s in
      let (b, s2) =
        saved (record (blank_document env user_id env.back_id) { id_doc_back = back }) s1 in
      let (v, s3) =
        saved (record (blank_document env user_id env.video_id) { liveness_video = video }) s2 in
      let (f, s4) =
        saved (record (blank_document env user_id env.selfie_id) { selfie = selfie }) s3 in
      if a && b && v && f
      then (
        ok (record {
          id_doc_front_id = env.front_id;
          id_doc_back_id = env.back_id;
          liveness_video_id = env.video_id;
          selfie_id = env.selfie_id;
        }),
        s4,
      )
      else (err validation_failed, s4)
