-- ===== src/Fraud/Repository.antt =====
-- fraud.repository.ts: windows, devices, places and frozen accounts in Redis.
use nexapay_fintech_super_ap.Common.{
  ◌∷◌, filter, length, ◌≡◌, ℕ, ◌+◌, Bool, not, Option, some, [], ◌==◌, ltb, if◌then◌else◌,
}
use nexapay_fintech_super_ap.Fraud.Entities.{in_range, Entries, Window, Redis, State}

-- One entry of a map changed.
abbrev pub update {ℓ} : {V : Type ℓ} → (ℕ → V) → ℕ → V → ℕ → V
update m k v j = if j == k then v else m j

-- `redis.expire(key, 86400)`
abbrev pub window_ttl : ℕ
window_ttl = 86400000

-- What is left of a window at a time.
abbrev pub live : ℕ → Window → Entries
live now w = if ltb now w.expires_at then w.entries else []

module _ (redis : Redis) where
  -- `zadd` and `expire`.
  unfoldable pub add_to_window : ℕ → ℕ → Window → Window
  add_to_window member now w = record {
    entries = redis.zadd now member (live now w);
    expires_at = now + window_ttl;
  }

  -- `zremrangebyscore` and `zcard`: the count, and the window that is left.
  unfoldable pub count_in_window : ℕ → ℕ → ℕ → Window → ℕ × Window
  count_in_window min_score max_score now w =
      let rest = redis.zremrangebyscore min_score max_score (live now w) in
      (redis.zcard rest, record w { entries = rest })

  unfoldable pub is_new_device : ℕ → ℕ → State → Bool
  is_new_device user_id device_id s = not (redis.sismember device_id (s.devices user_id))

  unfoldable pub associate_device : ℕ → ℕ → State → State
  associate_device user_id device_id s = record s {
    devices = update s.devices user_id (redis.sadd device_id (s.devices user_id));
  }

unfoldable pub get_last_location : ℕ → State → Option ℕ
get_last_location user_id s = s.locations user_id

unfoldable pub set_last_location : ℕ → ℕ → State → State
set_last_location user_id location s = record s {
  locations = update s.locations user_id (some location);
}

unfoldable pub set_frozen : ℕ → Bool → State → State
set_frozen account_id frozen s = record s { frozen = update s.frozen account_id frozen }

unfoldable pub is_frozen : ℕ → State → Bool
is_frozen account_id s = s.frozen account_id

-- `scanKeys('fraud:velocity:*')` and `deleteKeys` of what it finds: every window goes.
unfoldable pub delete_velocity_keys : State → State
delete_velocity_keys s = record s {
  user_windows = λ _. record { entries = []; expires_at = 0 };
  ip_windows = λ _. record { entries = []; expires_at = 0 };
}

module _ (redis : Redis) where
  pub count_in_window_lem :
      (min_score max_score now : ℕ) (w : Window)
      → count_in_window redis min_score max_score now w ≡ (
        length (filter (λ e. not (in_range min_score max_score e)) (live now w)),
        record w { entries = filter (λ e. not (in_range min_score max_score e)) (live now w) },
      )
  unfolding count_in_window
  count_in_window_lem min_score max_score now w =
      rw (redis.zremrangebyscore_lem min_score max_score (live now w))
        (rw (redis.zcard_lem (filter (λ e. not (in_range min_score max_score e)) (live now w))))

  pub add_to_window_lem :
      (member now : ℕ) (w : Window)
      → add_to_window redis member now w ≡ record {
        entries = (member, now) ∷ filter (λ e. not (e.0 == member)) (live now w);
        expires_at = now + window_ttl;
      }
  unfolding add_to_window
  add_to_window_lem member now w = rw (redis.zadd_lem now member (live now w))
