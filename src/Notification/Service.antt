-- ===== src/Notification/Service.antt =====
-- notification.service.ts, with email.service.ts, sms.service.ts and push.service.ts.
pub mod Delivery
use nexapay_fintech_super_ap.Common.{
  ℕ, suc, Bool, true, false, not, ◌&&◌, Option, none, some, List, [], ◌∷◌, ◌++◌, or_else,
  if◌then◌else◌,
}
use nexapay_fintech_super_ap.Common.Action.{Action, Result, ok, err, ◌>>=◌, ◌>>◌, pure, modify}
use nexapay_fintech_super_ap.Notification.Gateway.{send_to_user}
use nexapay_fintech_super_ap.Notification.Entities.{
  NotificationChannel, NotificationPriority, TopicKey, Segment, Notification, ChannelPreferences,
  Preference, NotificationPreferencesDto, CreateNotificationDto, IncomingNotification, InApp,
  Outgoing, State, Clients, Env,
}
use nexapay_fintech_super_ap.Notification.Repository.{
  create, find_by_user_id, mark_as_read, get_unread_count, get_preferences, upsert_preferences,
}

abbrev pub is_critical : Option NotificationPriority → Bool
is_critical (some NotificationPriority.critical) = true
is_critical _ = false

-- The first part; 'general' is no key of the preferences.
abbrev pub map_topic : List Segment → Option TopicKey
map_topic (Segment.key k ∷ _) = some k
map_topic _ = none

abbrev pub or_in_app : List NotificationChannel → List NotificationChannel
or_in_app [] = NotificationChannel.in_app ∷ []
or_in_app (x ∷ xs) = x ∷ xs

-- `if (enabled) channels.push(channel)`
abbrev pub pushed : Bool → NotificationChannel → List NotificationChannel
pushed true channel = channel ∷ []
pushed false _ = []

abbrev pub enabled_channels : ChannelPreferences → List NotificationChannel
enabled_channels prefs = or_in_app (
    pushed prefs.email NotificationChannel.email
    ++ pushed prefs.sms NotificationChannel.sms
    ++ pushed prefs.push NotificationChannel.push
    ++ pushed prefs.in_app NotificationChannel.in_app)

-- `prefs?.topics?.[topic]`
abbrev pub topic_prefs : Option Preference → Option TopicKey → Option ChannelPreferences
topic_prefs none _ = none
topic_prefs (some _) none = none
topic_prefs (some p) (some k) = p.topics k

abbrev pub allowed_channels : IncomingNotification → Option Preference → List NotificationChannel
allowed_channels data_ prefs =
    or_else data_.channels (elim (topic_prefs prefs (map_topic data_.topic)) [
      | none ↦ NotificationChannel.in_app ∷ []
      | some t ↦ enabled_channels t
    ])

abbrev pub is_suppressed : IncomingNotification → Option Preference → Bool
is_suppressed data_ none = false
is_suppressed data_ (some p) = p.do_not_disturb && not (is_critical data_.priority)

abbrev pub to_dto : IncomingNotification → List NotificationChannel → CreateNotificationDto
to_dto data_ channels = record {
  user_id = data_.user_id;
  title = data_.title;
  body = data_.body;
  channels = some channels;
  priority = some (or_else data_.priority NotificationPriority.medium);
  topic = data_.topic;
  metadata = data_.metadata;
}

-- A channel that threw counts as a failure.
abbrev pub counted : Result (Unit {0}) → ℕ → ℕ
counted (ok _) failures = failures
counted (err _) failures = suc failures

module _ {R : Type 0} where
  abbrev pub sent_out : Outgoing → Action (State R) (Unit {0})
  sent_out o = modify (λ s. record s { outbox = s.outbox ++ o ∷ [] })

  -- The `send` of the three services: a failure is logged, and `false` returned.
  pub send_email : Env → Outgoing → Action (State R) Bool
  send_email env o = if env.email_accepted then sent_out o >> pure true else pure false

  pub send_sms : Env → Outgoing → Action (State R) Bool
  send_sms env o =
      if env.sms_client && env.sms_from && env.sms_accepted
      then sent_out o >> pure true
      else pure false

  pub send_push : Env → Outgoing → Action (State R) Bool
  send_push env o =
      if env.push_initialized && env.push_accepted then sent_out o >> pure true else pure false

  pub deliver :
      Env → NotificationChannel → Notification → IncomingNotification → Action (State R) (Unit {0})
  deliver env NotificationChannel.in_app n data_ = modify (λ s. record s {
    gateway =
        send_to_user data_.user_id
          (record {
            id = n.id;
            title = n.title;
            body = n.body;
            topic = n.topic;
            priority = n.priority;
            created_at = n.created_at;
          })
          s.gateway;
  })
  deliver env NotificationChannel.email n data_ = elim data_.email_address [
    | none ↦ pure tt
    | some to ↦ send_email env (Outgoing.email to data_.title data_.body) >> pure tt
  ]
  deliver env NotificationChannel.sms n data_ = elim data_.phone_number [
    | none ↦ pure tt
    | some to ↦ send_sms env (Outgoing.sms to data_.body) >> pure tt
  ]
  deliver env NotificationChannel.push n data_ = elim data_.push_token [
    | none ↦ pure tt
    | some to ↦ send_push env (Outgoing.push to data_.title data_.body data_.metadata) >> pure tt
  ]

  -- `Promise.allSettled`: every channel is tried, and the number of failures is returned.
  pub deliver_all :
      Env → List NotificationChannel → Notification → IncomingNotification → ℕ → Action (State R) ℕ
  deliver_all env [] n data_ failures s = (ok failures, s)
  deliver_all env (channel ∷ rest) n data_ failures s =
      let (r, s') = deliver env channel n data_ s in
      deliver_all env rest n data_ (counted r failures) s'

module _ {R : Type 0} (c : Clients R) where
  pub process_incoming : Env → IncomingNotification → Action (State R) (Unit {0})
  process_incoming env data_ = do
    prefs ← get_preferences c data_.user_id
    if is_suppressed data_ prefs then pure tt else (do
      let channels = allowed_channels data_ prefs
      n ← create c env (to_dto data_ channels)
      failures ← deliver_all env channels n data_ 0
      pure tt)

  pub get_user_notifications : ℕ → ℕ → ℕ → Action (State R) (List Notification × ℕ × ℕ × ℕ)
  get_user_notifications = find_by_user_id c

  pub mark_notification : Env → ℕ → ℕ → Action (State R) Notification
  mark_notification = mark_as_read c

  pub unread_count : ℕ → Action (State R) ℕ
  unread_count = get_unread_count c

  pub preferences_of : ℕ → Action (State R) (Option Preference)
  preferences_of = get_preferences c

  pub set_preferences : NotificationPreferencesDto → Action (State R) Preference
  set_preferences = upsert_preferences c
