-- ===== src/Notification/Tests.antt =====
-- Instances of the theorems on the notification service, with clients in memory.
use nexapay_fintech_super_ap.Notification.Consumer.Duplicates.{handle_message-handle_message}
use nexapay_fintech_super_ap.Notification.Consumer.{handle_message}
use nexapay_fintech_super_ap.Notification.Service.{process_incoming}
use nexapay_fintech_super_ap.Notification.Entities.{
  MessageValue, TopicKey, State, IncomingNotification, Clients, Segment, Counters, Env,
}
use nexapay_fintech_super_ap.Common.{
  ℕ, suc, ◌+◌, ◌*◌, ◌≡◌, refl, true, false, Option, none, some, List, [], ◌∷◌, ◌++◌, ◌==◌, any,
  if◌then◌else◌, ne→not-==, length, filter, arith,
}
use nexapay_fintech_super_ap.Common.Rows.{find?}
use nexapay_fintech_super_ap.Common.Action.{ok}
use nexapay_fintech_super_ap.Common.InMemory.{Cache, served, cached, served-cached}
use nexapay_fintech_super_ap.Notification.Gateway.{get_connected_user_ids, started}
use nexapay_fintech_super_ap.Notification.Gateway.Presence.{
  Event, handle_all, connected_after, handle_all-get_connected_user_ids,
}

-- Two tabs of one user, of which one is closed, and a user that has left.
abbrev visits : List (Event ℕ)
visits =
    Event.connects (some 7) 1
    ∷ Event.connects (some 8) 2
    ∷ Event.connects (some 7) 3
    ∷ Event.sends 7 5
    ∷ Event.disconnects 1
    ∷ Event.disconnects 2
    ∷ []

handle_all-get_connected_user_ids_example :
    any (λ u. u == 7) (get_connected_user_ids (handle_all visits started))
    ≡ any (λ p. p.0 == 7) (connected_after visits [])
handle_all-get_connected_user_ids_example =
    handle_all-get_connected_user_ids visits 7 (refl, (refl, (refl, (tt, (tt, (tt, tt))))))

abbrev increased : Option (ℕ × ℕ) → Option (ℕ × ℕ)
increased none = none
increased (some (v, until)) = some (suc v, until)

abbrev incr : ℕ → ℕ → Cache ℕ → Cache ℕ
incr now k r key = if key == k then increased (r key) else r key

get-incr_other :
    (t now key k : ℕ) (r : Cache ℕ)
    → (key == k) ≡ false
    → served t (incr now k r key) ≡ served t (r key)
get-incr_other t now key k r e = rw e refl

abbrev counters : Counters (Cache ℕ)
counters = record {
  get = λ t key r. served t (r key);
  ttl = λ t key r. served t (r key);
  setex = cached;
  incr = incr;
  get-setex = served-cached;
  get-incr_other = get-incr_other;
  ttl_get = λ now key r. refl;
}

abbrev clients : Clients (Cache ℕ)
clients = record {
  casts = λ _. true;
  accepts = λ _. true;
  save = λ d ds. some (ds ++ d ∷ []);
  find_page = λ p key skip size rows. some (filter p rows);
  count = λ p rows. length (filter p rows);
  find_one_and_update = λ p f rows. (find? p rows, rows);
  find_preference = find?;
  redis = counters;
  dedup_key = λ u topic title. 2 * (100 * u + title);
  rate_key = λ u. 2 * u + 1;
  save_lem = λ d ds. refl;
  find_preference_lem = λ p rows. refl;
  keys_differ = λ u v topic title. ne→not-== (2 * (100 * u + title)) (2 * v + 1) (λ e. omega arith);
}

abbrev env : Env
env = record {
  now = 1000;
  object_id = 1;
  email_accepted = true;
  sms_client = false;
  sms_from = false;
  sms_accepted = false;
  push_initialized = false;
  push_accepted = false;
  rate_limit = none;
}

abbrev credited : List Segment
credited = Segment.key TopicKey.wallet ∷ Segment.other 1 ∷ Segment.notification ∷ []

abbrev payment : IncomingNotification
payment = record {
  user_id = 7;
  title = 20;
  body = 21;
  channels = none;
  topic = credited;
  priority = none;
  metadata = none;
  email_address = some 30;
  phone_number = none;
  push_token = none;
}

abbrev empty_state : State (Cache ℕ)
empty_state = record {
  notifications = [];
  preferences = [];
  gateway = started;
  outbox = [];
  redis = λ _. none;
}

handle_message-handle_message_example :
    (s1 s' : State (Cache ℕ)) × (process_incoming clients env payment empty_state ≡ (ok tt, s1))
    × (handle_message clients env
          (record { topic = credited; value = MessageValue.parsed payment })
          empty_state
        ≡ (ok tt, s'))
    × (handle_message clients
          (record env { now = 300999 })
          (record { topic = credited; value = MessageValue.parsed (record payment { body = 22 }) })
          s'
        ≡ (ok tt, s'))
handle_message-handle_message_example =
    handle_message-handle_message clients env (record env { now = 300999 }) credited credited
      payment (record payment { body = 22 }) empty_state refl refl refl refl refl refl refl refl
      refl (omega arith)
