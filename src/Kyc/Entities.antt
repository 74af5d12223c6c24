-- ===== src/Kyc/Entities.antt =====
-- kyc.entity.ts, the DTOs and the row of `kyc_records`. Ids are only compared, and are numbers.
use text.Mathlib.Text.{◌==◌ as str_eq}
use nexapay_fintech_super_ap.Common.{
  ℕ, ◌≡◌, Bool, true, false, Option, none, some, List, [], ◌∷◌, ◌++◌,
}
use mathlib.Core.List.{Perm}
use Prim.Native.String.{String}
use nexapay_fintech_super_ap.Common.Clients.{Prisma}

pub data KycStatus : Type 0 where
  pending verified rejected : KycStatus

-- `===`
abbrev pub same_status : KycStatus → KycStatus → Bool
same_status pending pending = true
same_status verified verified = true
same_status rejected rejected = true
same_status _ _ = false

pub record Kyc : Type 0 where
  pub id : ℕ
  pub user_id : ℕ
  pub status : KycStatus
  pub id_doc_type : Option String
  pub id_doc_ref : Option ℕ
  pub id_doc_back_ref : Option ℕ
  pub liveness_video_ref : Option ℕ
  pub selfie_ref : Option ℕ
  pub rejection_reason : Option String
  pub reviewed_by : Option ℕ
  pub reviewed_at : Option ℕ
  pub submitted_at : ℕ
  pub created_at : ℕ
  pub updated_at : ℕ

-- A document of `kyc_documents`; a field that is undefined is `none`.
pub record DocumentModel : Type 0 where
  pub id : ℕ
  pub user_id : ℕ
  pub id_doc_front : Option String
  pub id_doc_back : Option String
  pub liveness_video : Option String
  pub selfie : Option String
  pub uploaded_at : ℕ

pub record SubmitKycDto : Type 0 where
  pub id_doc_type : String
  pub id_doc_front : String
  pub id_doc_back : Option String
  pub liveness_video : Option String
  pub selfie : Option String

pub record ReviewKycDto : Type 0 where
  pub approved : Bool
  pub rejection_reason : Option String

-- `kyc.verified` and `kyc.rejected`.
pub data Topic : Type 0 where
  kyc_verified kyc_rejected : Topic

pub record Event : Type 0 where
  pub topic : Topic
  pub user_id : ℕ
  pub status : KycStatus
  pub timestamp : ℕ

-- The ids that `storeDocuments` returns.
pub record DocRecord : Type 0 where
  pub id_doc_front_id : ℕ
  pub id_doc_back_id : ℕ
  pub liveness_video_id : ℕ
  pub selfie_id : ℕ

pub record State : Type 0 where
  pub kycs : List Kyc
  pub documents : List DocumentModel
  pub events : List Event

abbrev pub is_empty : String → Bool
is_empty text = str_eq text ""

-- The external clients. `save` of Mongoose validates a document: a text that is `required` must
-- be there and not be empty.
pub record Clients : Type 0 where
  pub kycs : Prisma Kyc
  pub order_asc : (Kyc → ℕ) → List Kyc → List Kyc
  pub order_asc-perm : (key : Kyc → ℕ) (rows : List Kyc) → Perm (order_asc key rows) rows
  pub save : DocumentModel → List DocumentModel → Option (List DocumentModel)
  pub save_required :
      (d : DocumentModel) (ds : List DocumentModel) → d.id_doc_front ≡ none → save d ds ≡ none
  pub save_empty :
      (d : DocumentModel) (ds : List DocumentModel) (front : String)
      → d.id_doc_front ≡ some front
      → is_empty front ≡ true
      → save d ds ≡ none
  pub save_valid :
      (d : DocumentModel) (ds : List DocumentModel) (front : String)
      → d.id_doc_front ≡ some front
      → is_empty front ≡ false
      → save d ds ≡ some (ds ++ d ∷ [])

-- The clock, the ids of a new row and of new documents, and whether Kafka takes an event.
pub record Env : Type 0 where
  pub now : ℕ
  pub uuid : ℕ
  pub front_id : ℕ
  pub back_id : ℕ
  pub video_id : ℕ
  pub selfie_id : ℕ
  pub delivered : Bool
