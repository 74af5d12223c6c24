-- ===== src/Kyc/Repository/Calls.antt =====
-- kyc.repository.ts: what the calls on the KYC rows and documents return, as equations.
use nexapay_fintech_super_ap.Common.{if◌then◌else◌}
use nexapay_fintech_super_ap.Common.{
  inr, inl, Bool-cases, false, true, ℕ, ◌≡◌, refl, Option, none, some, [], ◌∷◌, ◌++◌,
}
use nexapay_fintech_super_ap.Common.Rows.{find?, replace}
use nexapay_fintech_super_ap.Common.Action.{ok, err, validation_failed}
use nexapay_fintech_super_ap.Kyc.Entities.{is_empty, Kyc, DocumentModel, State, Clients, Env}
use nexapay_fintech_super_ap.Kyc.Repository.{
  saved, has_id, of_user, find_by_id, find_by_user_id, update, store_documents, blank_document,
}
use Prim.Native.String.{String}

-- The document of the front image.
abbrev pub front_document : Env → ℕ → String → DocumentModel
front_document env user_id front = record (blank_document env user_id env.front_id) {
  id_doc_front = some front;
}

module _ (c : Clients) where
  pub find_by_id_lem : (id : ℕ) (s : State) → find_by_id c id s ≡ (ok (find? (has_id id) s.kycs), s)
  unfolding find_by_id
  find_by_id_lem id s = rw (c.kycs.find_unique_lem (has_id id) s.kycs)

  pub update_lem :
      (id : ℕ) (f : Kyc → Kyc) (s : State) {k : Kyc}
      → find? (has_id id) s.kycs ≡ some k
      → update c id f s ≡ (ok (f k), record s { kycs = replace (has_id id) f s.kycs })
  unfolding update
  update_lem id f s e = rw (c.kycs.update_some (has_id id) f s.kycs e)

-- What a refused submission leaves: the document of its front image, if that is not empty.
abbrev pub left_behind : Env → ℕ → String → State → State
left_behind env user_id front s =
    if is_empty front
    then s
    else record s { documents = s.documents ++ front_document env user_id front ∷ [] }

module _ (c : Clients) (env : Env) (user_id : ℕ) where
  pub find_by_user_id_lem :
      (s : State) → find_by_user_id c user_id s ≡ (ok (find? (of_user user_id) s.kycs), s)
  unfolding find_by_user_id
  find_by_user_id_lem s = rw (c.kycs.find_unique_lem (of_user user_id) s.kycs)

  saved_valid :
      (d : DocumentModel) (front : String) (s : State)
      → d.id_doc_front ≡ some front
      → is_empty front ≡ false
      → saved c d s ≡ (true, record s { documents = s.documents ++ d ∷ [] })
  unfolding saved
  saved_valid d front s e given = rw (c.save_valid d s.documents front e given, saved) refl

  saved_empty :
      (d : DocumentModel) (front : String) (s : State)
      → d.id_doc_front ≡ some front
      → is_empty front ≡ true
      → saved c d s ≡ (false, s)
  unfolding saved
  saved_empty d front s e given = rw (c.save_empty d s.documents front e given, saved) refl

  saved_required :
      (d : DocumentModel) (s : State) → d.id_doc_front ≡ none → saved c d s ≡ (false, s)
  unfolding saved
  saved_required d s e = rw (c.save_required d s.documents e, saved) refl

  -- Three of the four documents have no front image, which the schema requires: the first is
  -- stored if its image is not empty, and the call is refused.
  pub store_documents_refused :
      (front : String) (back video selfie : Option String) (s : State)
      → store_documents c env user_id front back video selfie s
        ≡ (err validation_failed, left_behind env user_id front s)
  unfolding store_documents
  store_documents_refused front back video selfie s =
      let s' : State = record s {
        documents = s.documents ++ front_document env user_id front ∷ [];
      } in
      let b : DocumentModel = record (blank_document env user_id env.back_id) {
        id_doc_back = back;
      } in
      let v : DocumentModel = record (blank_document env user_id env.video_id) {
        liveness_video = video;
      } in
      let f : DocumentModel = record (blank_document env user_id env.selfie_id) {
        selfie = selfie;
      } in
      elim (Bool-cases (is_empty front)) [
        | inl blank ↦ rw (saved_empty (front_document env user_id front) front s refl blank) (
            rw (saved_required b s refl)
              (rw (saved_required v s refl) (rw (saved_required f s refl) (rw blank refl))))
        | inr given ↦ rw (saved_valid (front_document env user_id front) front s refl given) (
            rw (saved_required b s' refl)
              (rw (saved_required v s' refl) (rw (saved_required f s' refl) (rw given refl))))
      ]
