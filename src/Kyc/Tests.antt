-- ===== src/Kyc/Tests.antt =====
-- The KYC methods on small inputs.
use nexapay_fintech_super_ap.Common.{
  if◌then◌else◌, ℕ, ◌≡◌, refl, ◌-◌, true, false, Option, none, some, List, [], ◌∷◌, ◌++◌, ap,
}
use nexapay_fintech_super_ap.Common.InMemory.{table, sort_desc, sort_desc-perm}
use nexapay_fintech_super_ap.Common.Action.{ok, err, bad_request, validation_failed}
use nexapay_fintech_super_ap.Kyc.Entities.{
  is_empty, DocumentModel, SubmitKycDto, ReviewKycDto, State, Clients, Env,
}
use nexapay_fintech_super_ap.Kyc.Repository.{blank_kyc}
use nexapay_fintech_super_ap.Kyc.Repository.Calls.{front_document}
use nexapay_fintech_super_ap.Kyc.Service.{submit_kyc, review_kyc, reviewed}
use nexapay_fintech_super_ap.Kyc.Service.Reviews.{review_kyc-review_kyc, review_kyc-pending}
use nexapay_fintech_super_ap.Kyc.Service.Submissions.{submit_kyc_refused}
use Prim.Native.String.{String}

-- A time after all of the tests.
abbrev latest : ℕ
latest = 1000000

-- A document store that validates.
abbrev saved : DocumentModel → List DocumentModel → Option String → Option (List DocumentModel)
saved d ds none = none
saved d ds (some front) = if is_empty front then none else some (ds ++ d ∷ [])

saved_required :
    (d : DocumentModel) (ds : List DocumentModel)
    → d.id_doc_front ≡ none
    → saved d ds d.id_doc_front ≡ none
saved_required d ds e = rw e refl

saved_valid :
    (d : DocumentModel) (ds : List DocumentModel) (front : String)
    → d.id_doc_front ≡ some front
    → is_empty front ≡ false
    → saved d ds d.id_doc_front ≡ some (ds ++ d ∷ [])
saved_valid d ds front e given = rw e (rw given refl)

saved_empty :
    (d : DocumentModel) (ds : List DocumentModel) (front : String)
    → d.id_doc_front ≡ some front
    → is_empty front ≡ true
    → saved d ds d.id_doc_front ≡ none
saved_empty d ds front e blank = rw e (rw blank refl)

abbrev clients : Clients
clients = record {
  kycs = table;
  order_asc = λ key rows. sort_desc (λ k. latest - key k) rows;
  order_asc-perm = λ key rows. sort_desc-perm (λ k. latest - key k) rows;
  save = λ d ds. saved d ds d.id_doc_front;
  save_required = saved_required;
  save_valid = saved_valid;
  save_empty = saved_empty;
}

abbrev env : Env
env = record {
  now = 100;
  uuid = 1;
  front_id = 11;
  back_id = 12;
  video_id = 13;
  selfie_id = 14;
  delivered = true;
}

abbrev empty : State
empty = record { kycs = []; documents = []; events = [] }

abbrev open_state : State
open_state = record empty { kycs = blank_kyc env 7 ∷ [] }

abbrev submission : SubmitKycDto
submission = record {
  id_doc_type = "PASSPORT";
  id_doc_front = "front";
  id_doc_back = some "back";
  liveness_video = some "video";
  selfie = some "selfie";
}

abbrev approval : ReviewKycDto
approval = record { approved = true; rejection_reason = none }

abbrev refusal : ReviewKycDto
refusal = record { approved = false; rejection_reason = some "blurred" }

submit_kyc_refused_example :
    submit_kyc clients env 7 submission empty
    ≡ (err validation_failed, record empty { documents = front_document env 7 "front" ∷ [] })
submit_kyc_refused_example = submit_kyc_refused clients env 7 submission empty

review_run : review_kyc clients env 1 approval 99 open_state ≡ (
  ok (reviewed env approval 99 (blank_kyc env 7)),
  (review_kyc clients env 1 approval 99 open_state).1,
)
review_run =
    ap (λ r. (r, (review_kyc clients env 1 approval 99 open_state).1))
      (review_kyc-pending clients env 1 approval 99 open_state refl refl).0

review_kyc-review_kyc_example :
    review_kyc clients env 1 refusal 98 (review_kyc clients env 1 approval 99 open_state).1
    ≡ (err bad_request, (review_kyc clients env 1 approval 99 open_state).1)
review_kyc-review_kyc_example =
    review_kyc-review_kyc clients env env 1 approval refusal 99 98 open_state
      (review_kyc clients env 1 approval 99 open_state).1 review_run
