-- ===== src/Notification/Repository.antt =====
-- notification.repository.ts: the queries and writes of `NotificationRepository`.
pub mod Calls
use nexapay_fintech_super_ap.Common.{
  ℕ, zero, suc, ◌*◌, Bool, true, false, not, ◌&&◌, ◌||◌, Option, none, some, List, [], ◌∷◌, ◌++◌,
  ◌==◌, or_else, if◌then◌else◌,
}
use nexapay_fintech_super_ap.Common.Int.{ℤ, pos, neg}
use nexapay_fintech_super_ap.Common.Rows.{replace}
use nexapay_fintech_super_ap.Common.Action.{
  Action, ◌>>=◌, ◌>>◌, pure, gets, modify, throw_if, or_throw, not_found, cast_failed,
  validation_failed,
}
use nexapay_fintech_super_ap.Notification.Entities.{
  NotificationChannel, NotificationStatus, NotificationPriority, TopicKey, Notification,
  ChannelPreferences, Preference, NotificationPreferencesDto, CreateNotificationDto, State, Clients,
  Env,
}

-- A user's notification that is not deleted.
abbrev pub visible_to : ℕ → Notification → Bool
visible_to user_id n = (n.user_id == user_id) && not n.is_deleted

abbrev pub is_unread : NotificationStatus → Bool
is_unread NotificationStatus.pending = true
is_unread NotificationStatus.sent = true
is_unread _ = false

abbrev pub new_notification : Env → CreateNotificationDto → Notification
new_notification env dto = record {
  id = env.object_id;
  user_id = dto.user_id;
  title = dto.title;
  body = dto.body;
  channels = or_else dto.channels (NotificationChannel.in_app ∷ []);
  status = NotificationStatus.pending;
  priority = or_else dto.priority NotificationPriority.medium;
  topic = dto.topic;
  metadata = dto.metadata;
  sent_at = none;
  read_at = none;
  is_deleted = false;
  created_at = env.now;
}

-- `(page - 1) * limit`
abbrev pub skip_of : ℕ → ℕ → ℤ
skip_of zero limit = neg limit
skip_of (suc page) limit = pos (page * limit)

abbrev pub default_channels : ChannelPreferences
default_channels = record { email = true; sms = false; push = true; in_app = true }

-- The default of `topics`.
abbrev pub default_topics : TopicKey → Option ChannelPreferences
default_topics TopicKey.fraud = some (record default_channels { sms = true; email = true })
default_topics TopicKey.marketing =
    some (record { email = true; sms = false; push = false; in_app = false })
default_topics _ = some default_channels

-- Whether some key of the topics is set.
abbrev pub sets_topics : (TopicKey → Option ChannelPreferences) → Bool
sets_topics topics =
    set (topics TopicKey.wallet)
    || set (topics TopicKey.loan)
    || set (topics TopicKey.kyc)
    || set (topics TopicKey.fraud)
    || set (topics TopicKey.investment)
    || set (topics TopicKey.marketing)
  where
    set : Option ChannelPreferences → Bool
    set none = false
    set (some _) = true

-- `$set` of what the DTO gives.
abbrev pub updated_preference : NotificationPreferencesDto → Preference → Preference
updated_preference dto p = record p {
  topics = λ k. elim (dto.topics k) [ none ↦ p.topics k | some prefs ↦ some prefs ];
  do_not_disturb = or_else dto.do_not_disturb p.do_not_disturb;
  quiet_hours = elim dto.quiet_hours [ none ↦ p.quiet_hours | some q ↦ some q ];
}

-- An upsert that inserts: the default of `topics` is left out where the update sets a part of it.
abbrev pub inserted_preference : NotificationPreferencesDto → Preference
inserted_preference dto = updated_preference dto (record {
  user_id = dto.user_id;
  topics = if sets_topics dto.topics then (λ _. none) else default_topics;
  do_not_disturb = false;
  quiet_hours = none;
})

module _ {R : Type 0} (c : Clients R) where
  -- `new Types.ObjectId(id)`
  pub object_id : ℕ → Action (State R) (Unit {0})
  object_id id = throw_if (not (c.casts id)) cast_failed

  pub create : Env → CreateNotificationDto → Action (State R) Notification
  create env dto = do
    object_id dto.user_id
    let n = new_notification env dto
    rows ← or_throw (← gets (λ s. c.save n s.notifications)) validation_failed
    modify (λ s. record s { notifications = rows })
    pure n

  -- The page, and the number of all.
  pub find_by_user_id : ℕ → ℕ → ℕ → Action (State R) (List Notification × ℕ × ℕ × ℕ)
  find_by_user_id user_id page limit = do
    object_id user_id
    rows ←
        or_throw
          (← gets (λ s.
            c.find_page (visible_to user_id) (λ n. n.created_at) (skip_of page limit) limit
              s.notifications))
          validation_failed
    total ← gets (λ s. c.count (visible_to user_id) s.notifications)
    pure (rows, total, page, limit)

  pub mark_as_read : Env → ℕ → ℕ → Action (State R) Notification
  mark_as_read env id user_id = do
    object_id id
    object_id user_id
    (found, rows) ← gets (λ s.
        c.find_one_and_update (λ n. (n.id == id) && visible_to user_id n)
          (λ n. record n { status = NotificationStatus.read; read_at = some env.now })
          s.notifications)
    modify (λ s. record s { notifications = rows })
    or_throw found not_found

  pub get_unread_count : ℕ → Action (State R) ℕ
  get_unread_count user_id = do
    object_id user_id
    gets (λ s. c.count (λ n. visible_to user_id n && is_unread n.status) s.notifications)

  pub get_preferences : ℕ → Action (State R) (Option Preference)
  get_preferences user_id = do
    object_id user_id
    gets (λ s. c.find_preference (λ p. p.user_id == user_id) s.preferences)

  pub upsert_preferences : NotificationPreferencesDto → Action (State R) Preference
  upsert_preferences dto = do
    object_id dto.user_id
    found ← gets (λ s. c.find_preference (λ p. p.user_id == dto.user_id) s.preferences)
    elim found [
      | none ↦ do
        modify (λ s. record s { preferences = s.preferences ++ inserted_preference dto ∷ [] })
        pure (inserted_preference dto)
      | some p ↦ do
        modify (λ s. record s {
          preferences =
              replace (λ x. x.user_id == dto.user_id) (updated_preference dto) s.preferences;
        })
        pure (updated_preference dto p)
    ]
