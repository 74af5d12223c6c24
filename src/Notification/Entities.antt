-- ===== src/Notification/Entities.antt =====
-- notification.schema.ts, preference.schema.ts, the DTOs, and what the other services send. Ids and
-- texts are only compared, and are numbers; a topic is the list of its parts between the dots.
use nexapay_fintech_super_ap.Common.{
  ℕ, ◌≡◌, ◌+◌, Bool, false, Option, none, some, List, [], ◌∷◌, ◌++◌, ◌==◌, ltb, is_some,
  if◌then◌else◌,
}
use nexapay_fintech_super_ap.Common.Int.{ℤ}
use nexapay_fintech_super_ap.Common.Rows.{find?}
use nexapay_fintech_super_ap.Notification.Gateway.{Gateway}

pub data NotificationChannel : Type 0 where
  in_app email sms push : NotificationChannel

pub data NotificationStatus : Type 0 where
  pending sent failed read : NotificationStatus

pub data NotificationPriority : Type 0 where
  low medium high critical : NotificationPriority

-- The keys of `TopicPreferences`.
pub data TopicKey : Type 0 where
  wallet loan kyc fraud investment marketing : TopicKey

-- A part of a topic: a key of the preferences, 'notification', nothing, or another text.
pub data Segment : Type 0 where
  key : TopicKey → Segment
  notification blank : Segment
  other : ℕ → Segment

pub record Notification : Type 0 where
  pub id : ℕ
  pub user_id : ℕ
  pub title : ℕ
  pub body : ℕ
  pub channels : List NotificationChannel
  pub status : NotificationStatus
  pub priority : NotificationPriority
  pub topic : List Segment
  pub metadata : Option ℕ
  pub sent_at : Option ℕ
  pub read_at : Option ℕ
  pub is_deleted : Bool
  pub created_at : ℕ

-- A flag that is undefined is `false`, which tests as it does.
pub record ChannelPreferences : Type 0 where
  pub email : Bool
  pub sms : Bool
  pub push : Bool
  pub in_app : Bool

pub record Preference : Type 0 where
  pub user_id : ℕ
  pub topics : TopicKey → Option ChannelPreferences
  pub do_not_disturb : Bool
  pub quiet_hours : Option (ℕ × ℕ)

pub record NotificationPreferencesDto : Type 0 where
  pub user_id : ℕ
  pub topics : TopicKey → Option ChannelPreferences
  pub do_not_disturb : Option Bool
  pub quiet_hours : Option (ℕ × ℕ)

pub record CreateNotificationDto : Type 0 where
  pub user_id : ℕ
  pub title : ℕ
  pub body : ℕ
  pub channels : Option (List NotificationChannel)
  pub priority : Option NotificationPriority
  pub topic : List Segment
  pub metadata : Option ℕ

-- An address that is not given or empty is `none`.
pub record IncomingNotification : Type 0 where
  pub user_id : ℕ
  pub title : ℕ
  pub body : ℕ
  pub channels : Option (List NotificationChannel)
  pub topic : List Segment
  pub priority : Option NotificationPriority
  pub metadata : Option ℕ
  pub email_address : Option ℕ
  pub phone_number : Option ℕ
  pub push_token : Option ℕ

-- The value of a Kafka message: none or an empty one, one that is no JSON, or a notification.
pub data MessageValue : Type 0 where
  empty garbled : MessageValue
  parsed : IncomingNotification → MessageValue

pub record Message : Type 0 where
  pub topic : List Segment
  pub value : MessageValue

-- What goes to the room of a user.
pub record InApp : Type 0 where
  pub id : ℕ
  pub title : ℕ
  pub body : ℕ
  pub topic : List Segment
  pub priority : NotificationPriority
  pub created_at : ℕ

-- What the mail server, Twilio and Firebase took. The `html` of a mail is the body between
-- `<p>` and `</p>`, and stands here as the body's number.
pub data Outgoing : Type 0 where
  email : (to subject html : ℕ) → Outgoing
  sms : (to body : ℕ) → Outgoing
  push : (token title body : ℕ) (data_ : Option ℕ) → Outgoing

pub record State (R : Type 0) : Type 0 where
  pub notifications : List Notification
  pub preferences : List Preference
  pub gateway : Gateway InApp
  pub outbox : List Outgoing
  pub redis : R

-- Numbers in Redis under keys with an expiry, at a time in milliseconds; `ttl` is `none` for -2.
pub record Counters (R : Type 0) : Type 0 where
  pub get : ℕ → ℕ → R → Option ℕ
  pub ttl : ℕ → ℕ → R → Option ℕ
  pub setex : ℕ → ℕ → ℕ → ℕ → R → R
  pub incr : ℕ → ℕ → R → R
  pub get-setex :
      (t now key k life v : ℕ) (r : R)
      → get t key (setex now k life v r)
        ≡ (if key == k then (if ltb t (now + life) then some v else none) else get t key r)
  pub get-incr_other :
      (t now key k : ℕ) (r : R) → (key == k) ≡ false → get t key (incr now k r) ≡ get t key r
  pub ttl_get : (now key : ℕ) (r : R) → is_some (ttl now key r) ≡ is_some (get now key r)

-- The external clients. A call with an id that is no ObjectId throws; `save` throws for a document
-- that the schema refuses. The texts of the two families of Redis keys differ.
pub record Clients (R : Type 0) : Type 0 where
  pub casts : ℕ → Bool
  pub accepts : Notification → Bool
  pub save : Notification → List Notification → Option (List Notification)
  pub find_page :
      (Notification → Bool)
      → (Notification → ℕ)
      → ℤ
      → ℕ
      → List Notification
      → Option (List Notification)
  pub count : (Notification → Bool) → List Notification → ℕ
  pub find_one_and_update :
      (Notification → Bool)
      → (Notification → Notification)
      → List Notification
      → Option Notification × List Notification
  pub find_preference : (Preference → Bool) → List Preference → Option Preference
  pub redis : Counters R
  pub dedup_key : ℕ → List Segment → ℕ → ℕ
  pub rate_key : ℕ → ℕ
  pub save_lem :
      (d : Notification) (ds : List Notification)
      → save d ds ≡ (if accepts d then some (ds ++ d ∷ []) else none)
  pub find_preference_lem :
      (p : Preference → Bool) (rows : List Preference) → find_preference p rows ≡ find? p rows
  pub keys_differ :
      (u v : ℕ) (topic : List Segment) (title : ℕ) → (dedup_key u topic title == rate_key v) ≡ false

-- The clock, the ObjectId of a new document, whether the mail server, Twilio and Firebase are set up
-- and take a message, and `NOTIFICATION_RATE_LIMIT`.
pub record Env : Type 0 where
  pub now : ℕ
  pub object_id : ℕ
  pub email_accepted : Bool
  pub sms_client : Bool
  pub sms_from : Bool
  pub sms_accepted : Bool
  pub push_initialized : Bool
  pub push_accepted : Bool
  pub rate_limit : Option ℕ
