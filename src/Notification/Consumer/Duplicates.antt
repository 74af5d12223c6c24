-- ===== src/Notification/Consumer/Duplicates.antt =====
-- notification.consumer.ts, `handleMessage`: a message that comes again.
use nexapay_fintech_super_ap.Common.{
  ℕ, ◌+◌, ◌<◌, ◌≡◌, refl, ap, ◌∙◌, true, false, none, some, List, ◌==◌, is_some, if◌then◌else◌,
  Bool-cases, inl, inr, lt→ltb, ==_refl,
}
use nexapay_fintech_super_ap.Common.Action.{ok}
use nexapay_fintech_super_ap.Notification.Entities.{
  IncomingNotification, MessageValue, State, Clients, Env,
}
use nexapay_fintech_super_ap.Notification.Service.{process_incoming}
use nexapay_fintech_super_ap.Notification.Service.Delivery.{process_incoming_returns, document}
use nexapay_fintech_super_ap.Notification.Consumer.{
  Segment, matches_topic, dedup_life, rate_window, dedup_key_of, is_duplicate,
  set_deduplication_key, at_limit, is_rate_limited, increment_rate_counter, handle_data,
  handle_message,
}

module _ {R : Type 0} (c : Clients R) where
  -- Redis after a message of a user is counted.
  abbrev counted_in : Env → ℕ → R → R
  counted_in env user_id r =
      if is_some (c.redis.ttl env.now (c.rate_key user_id) r)
      then c.redis.incr env.now (c.rate_key user_id) r
      else c.redis.setex env.now (c.rate_key user_id) rate_window 1 r

  -- The state after a message that is taken.
  abbrev taken : Env → IncomingNotification → State R → State R
  taken env data_ s = record s {
    redis =
        counted_in env data_.user_id
          (c.redis.setex env.now (dedup_key_of c data_) dedup_life 1 s.redis);
  }

  handle_data-duplicate :
      (env : Env) (data_ : IncomingNotification) (s : State R) {v : ℕ}
      → c.redis.get env.now (dedup_key_of c data_) s.redis ≡ some v
      → handle_data c env data_ s ≡ (ok tt, s)
  unfolding handle_data is_duplicate
  handle_data-duplicate env data_ s e = rw e refl

  handle_data-taken :
      (env : Env) (data_ : IncomingNotification) (s s1 : State R)
      → c.redis.get env.now (dedup_key_of c data_) s.redis ≡ none
      → at_limit c env (c.redis.get env.now (c.rate_key data_.user_id) s.redis) ≡ false
      → process_incoming c env data_ s ≡ (ok tt, s1)
      → handle_data c env data_ s ≡ (ok tt, taken env data_ s1)
  unfolding handle_data is_duplicate is_rate_limited set_deduplication_key increment_rate_counter
  handle_data-taken env data_ s s1 new under done = rw new (rw under (rw done refl))

  -- Counting does not touch the key of a message.
  get-counted_in :
      (t : ℕ) (env : Env) (user_id key : ℕ) (r : R)
      → (key == c.rate_key user_id) ≡ false
      → c.redis.get t key (counted_in env user_id r) ≡ c.redis.get t key r
  get-counted_in t env user_id key r e =
      elim (Bool-cases (is_some (c.redis.ttl env.now (c.rate_key user_id) r))) [
        | inl h ↦ rw h (c.redis.get-incr_other t env.now key (c.rate_key user_id) r e)
        | inr h ↦
            rw h (
              rw (c.redis.get-setex t env.now key (c.rate_key user_id) rate_window 1 r) (rw e refl))
      ]

  handle_message-parsed :
      (env : Env) (topic : List Segment) (data_ : IncomingNotification) (s s' : State R)
      → matches_topic topic ≡ true
      → handle_data c env data_ s ≡ (ok tt, s')
      → handle_message c env (record { topic = topic; value = MessageValue.parsed data_ }) s
        ≡ (ok tt, s')
  unfolding handle_message
  handle_message-parsed env topic data_ s s' m e = rw m (rw e refl)

  -- A message that is taken is not taken again: a notification that is no duplicate, of a user
  -- below the limit, whose id casts and whose document the schema accepts, is processed without an
  -- error, and then every message within the next 300 s with the same user, topic and title changes
  -- nothing, whatever its other fields.
  pub handle_message-handle_message :
      (env env' : Env) (topic topic' : List Segment) (data_ data' : IncomingNotification)
      (s : State R)
      → matches_topic topic ≡ true
      → matches_topic topic' ≡ true
      → data'.user_id ≡ data_.user_id
      → data'.topic ≡ data_.topic
      → data'.title ≡ data_.title
      → c.redis.get env.now (dedup_key_of c data_) s.redis ≡ none
      → at_limit c env (c.redis.get env.now (c.rate_key data_.user_id) s.redis) ≡ false
      → c.casts data_.user_id ≡ true
      → c.accepts (document c env data_ s) ≡ true
      → env'.now < env.now + dedup_life
      → (s1 s' : State R) × (process_incoming c env data_ s ≡ (ok tt, s1))
        × (handle_message c env (record { topic = topic; value = MessageValue.parsed data_ }) s
            ≡ (ok tt, s'))
        × (handle_message c env' (record { topic = topic'; value = MessageValue.parsed data' }) s'
            ≡ (ok tt, s'))
  handle_message-handle_message env env' topic topic' data_ data' s m m' user same title new under
        casts valid soon =
      let (s1, done) = process_incoming_returns c env data_ s casts valid in
      let key = dedup_key_of c data_ in
      let s' = taken env data_ s1 in
      let found : c.redis.get env'.now key s'.redis ≡ some 1 =
        get-counted_in env'.now env data_.user_id key
          (c.redis.setex env.now key dedup_life 1 s1.redis)
          (c.keys_differ data_.user_id data_.user_id data_.topic data_.title)
        ∙ c.redis.get-setex env'.now env.now key key dedup_life 1 s1.redis
        ∙ rw (==_refl key) (rw (lt→ltb env'.now (env.now + dedup_life) soon) refl) in
      let keys : dedup_key_of c data' ≡ key = rw (user, same, title) refl in
      (
        s1,
        s',
        done,
        handle_message-parsed env topic data_ s s' m
            (handle_data-taken env data_ s s1 new under done),
        handle_message-parsed env' topic' data' s' s' m' (
            handle_data-duplicate env' data' s'
              (ap (λ k. c.redis.get env'.now k s'.redis) keys ∙ found)),
      )
