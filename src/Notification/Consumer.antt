-- ===== src/Notification/Consumer.antt =====
-- notification.consumer.ts: the messages of Kafka. Log lines are left out.
pub mod Duplicates
use nexapay_fintech_super_ap.Common.{
  ℕ, Bool, true, false, not, ◌&&◌, Option, none, some, List, [], ◌∷◌, leb, or_else, is_some,
  if◌then◌else◌,
}
use nexapay_fintech_super_ap.Common.Action.{
  Action, ok, ◌>>=◌, ◌>>◌, pure, throw, gets, modify, invalid_json,
}
use nexapay_fintech_super_ap.Notification.Entities.{
  Segment, IncomingNotification, MessageValue, Message, State, Clients, Env,
}
use nexapay_fintech_super_ap.Notification.Service.{process_incoming}

abbrev pub is_notification : Segment → Bool
is_notification Segment.notification = true
is_notification _ = false

abbrev pub is_blank : Segment → Bool
is_blank Segment.blank = true
is_blank _ = false

-- `/^.+\.notification$/`: the last part, after a dot and something before it.
abbrev pub matches_topic : List Segment → Bool
matches_topic [] = false
matches_topic (_ ∷ []) = false
matches_topic (a ∷ b ∷ []) = not (is_blank a) && is_notification b
matches_topic (a ∷ b ∷ d ∷ []) = is_notification d
matches_topic (a ∷ b ∷ d ∷ e ∷ rest) = matches_topic (Segment.notification ∷ d ∷ e ∷ rest)

-- 300 and 3600 seconds.
abbrev pub dedup_life : ℕ
dedup_life = 300000

abbrev pub rate_window : ℕ
rate_window = 3600000

-- `try { … } catch (error) { … }`
abbrev pub caught : {S : Type 0} → Action S (Unit {0}) → Action S (Unit {0})
caught m s = (ok tt, (m s).1)

module _ {R : Type 0} (c : Clients R) where
  abbrev pub dedup_key_of : IncomingNotification → ℕ
  dedup_key_of data_ = c.dedup_key data_.user_id data_.topic data_.title

  pub is_duplicate : Env → IncomingNotification → Action (State R) Bool
  is_duplicate env data_ = gets (λ s. is_some (c.redis.get env.now (dedup_key_of data_) s.redis))

  pub set_deduplication_key : Env → IncomingNotification → Action (State R) (Unit {0})
  set_deduplication_key env data_ =
      modify
        (λ s. record s { redis = c.redis.setex env.now (dedup_key_of data_) dedup_life 1 s.redis })

  -- Whether a counter has reached the limit.
  abbrev pub at_limit : Env → Option ℕ → Bool
  at_limit env none = false
  at_limit env (some current) = leb (or_else env.rate_limit 50) current

  pub is_rate_limited : Env → ℕ → Action (State R) Bool
  is_rate_limited env user_id =
      gets (λ s. at_limit env (c.redis.get env.now (c.rate_key user_id) s.redis))

  pub increment_rate_counter : Env → ℕ → Action (State R) (Unit {0})
  increment_rate_counter env user_id = do
    ttl ← gets (λ s. c.redis.ttl env.now (c.rate_key user_id) s.redis)
    modify (λ s. record s {
      redis =
          if is_some ttl
          then c.redis.incr env.now (c.rate_key user_id) s.redis
          else c.redis.setex env.now (c.rate_key user_id) rate_window 1 s.redis;
    })

  -- What is done with a message that parses.
  pub handle_data : Env → IncomingNotification → Action (State R) (Unit {0})
  handle_data env data_ = do
    duplicate ← is_duplicate env data_
    if duplicate then pure tt else (do
      limited ← is_rate_limited env data_.user_id
      if limited then pure tt else (do
        process_incoming c env data_
        set_deduplication_key env data_
        increment_rate_counter env data_.user_id))

  pub handle_message : Env → Message → Action (State R) (Unit {0})
  handle_message env m = caught (
      if matches_topic m.topic
      then elim m.value [
        | MessageValue.empty ↦ pure tt
        | MessageValue.garbled ↦ throw invalid_json
        | MessageValue.parsed data_ ↦ handle_data env data_
      ]
      else pure tt)
