-- ===== src/Fraud/Tests.antt =====
-- The fraud checks on small inputs.
use nexapay_fintech_super_ap.Common.{
  ◌+◌, if◌then◌else◌, ℕ, ◌≡◌, refl, Bool, true, false, not, ◌||◌, none, some, [], ◌∷◌, ◌==◌, filter,
  length, any, ltb, leb, map, arith, All,
}
use nexapay_fintech_super_ap.Fraud.Entities.{
  Rule, Config, CheckTransactionDto, Redis, Window, State, Env, in_range, amount_threshold,
  new_device, block, flag,
}
use nexapay_fintech_super_ap.Fraud.Repository.{live, is_frozen}
use nexapay_fintech_super_ap.Fraud.Service.{
  check_transaction, check_velocity, get_all_rules, is_block,
}
use nexapay_fintech_super_ap.Fraud.Service.Velocity.{
  recent, answers, check_velocity-counts_old, answers-Burst,
}
use nexapay_fintech_super_ap.Fraud.Service.Reviews.{
  Indexed, reviewed_flag, review_flag-get_all_flags,
}
use nexapay_fintech_super_ap.Fraud.Service.{get_all_flags, review_flag}
use nexapay_fintech_super_ap.Fraud.Entities.{FraudFlag, medium, open_flag, dismissed}
use nexapay_fintech_super_ap.Common.{ap, sym}
use mathlib.Core.Option.{some-injective}
use nexapay_fintech_super_ap.Fraud.Service.Signals.{places, places-home}
use nexapay_fintech_super_ap.Fraud.Service.Decision.{triggered, check_transaction-decides}

swap_test : (x m : ℕ) (b : Bool) → ((x == m) || b) ≡ ((m == x) || b)
swap_test x m b = ground arith

abbrev redis : Redis
redis = record {
  zadd = λ score member z. (member, score) ∷ filter (λ e. not (e.0 == member)) z;
  zremrangebyscore = λ lo hi z. filter (λ e. not (in_range lo hi e)) z;
  zcard = λ z. length z;
  sadd = λ m s. m ∷ s;
  sismember = λ m s. any (λ x. x == m) s;
  zadd_lem = λ score member z. refl;
  zremrangebyscore_lem = λ lo hi z. refl;
  zcard_lem = λ z. refl;
  sismember_lem = λ m s. refl;
  sismember-sadd = λ m x s. swap_test x m (any (λ y. y == m) s);
}

abbrev env : Env
env = record { now = 1000000; ids = λ n. n + 100; freeze_threshold = 2; delivered = true }

abbrev dto : CheckTransactionDto
dto = record {
  user_id = 7;
  amount = 2000000;
  currency = 840;
  ip_address = 5;
  device_id = some 9;
  location = some 30;
  transaction_type = none;
}

abbrev config : Config
config = record { max_amount = some 1000000; max_count = none; window_minutes = none }

abbrev amount_rule : Rule
amount_rule = record {
  id = 1;
  name = "Amount";
  type = amount_threshold;
  config = config;
  enabled = true;
  action = block;
  created_at = 0;
  updated_at = 0;
}

abbrev device_rule : Rule
device_rule = record amount_rule { id = 2; name = "Device"; type = new_device; action = flag }

abbrev empty_window : Window
empty_window = record { entries = []; expires_at = 0 }

abbrev state : State
state = record {
  rule_list = 1 ∷ 2 ∷ [];
  rules = λ j. if j == 1 then some amount_rule else if j == 2 then some device_rule else none;
  flag_list = [];
  flags = λ _. none;
  user_windows = λ _. empty_window;
  ip_windows = λ _. empty_window;
  devices = λ _. [];
  locations = λ _. some 31;
  frozen = λ _. false;
  drawn = 0;
  alerts = [];
}

check_transaction-decides_example :
    let hit = triggered redis env dto (get_all_rules state) state in
    let (answer, s') = check_transaction redis env dto state in
    (map (λ f. f.rule_id) answer.flags ≡ map (λ r. r.id) hit)
    × (answer.allowed ≡ not (any (λ r. is_block r.action) hit || leb 2 (length hit)))
    × (answer.has_flags ≡ ltb 0 (length hit))
    × (is_frozen 7 s' ≡ (leb 2 (length hit) || is_frozen 7 state))
check_transaction-decides_example = check_transaction-decides redis env dto state

-- Two requests from the new place, then one from the recorded place 31.
places-home_example :
    let home_dto = record dto { location = some 31 } in
    ((places redis env config (dto ∷ dto ∷ home_dto ∷ []) state).0 ≡ true ∷ true ∷ false ∷ [])
    × ((places redis env config (dto ∷ dto ∷ home_dto ∷ []) state).1.locations 7 ≡ some 31)
places-home_example =
    places-home redis env config 31 7 (dto ∷ dto ∷ record dto { location = some 31 } ∷ []) state
      refl (refl, (refl, (refl, tt)))

abbrev old_window : Window
old_window = record { entries = (1, 1) ∷ (2, 2) ∷ (999999, 999999) ∷ []; expires_at = 80000000 }

check_velocity-counts_old_example :
    (check_velocity redis env dto 2 300000 old_window).0
    ≡ leb 2 (length (filter (λ e. not (recent 300000 1000000 e)) (live 1000000 old_window)))
check_velocity-counts_old_example = check_velocity-counts_old redis env dto 2 300000 old_window

answers-Burst_example :
    All
      (λ hit. hit ≡ false)
      (answers redis env dto 1 300000 (1000 ∷ 1001 ∷ 1002 ∷ 1003 ∷ []) empty_window)
answers-Burst_example =
    answers-Burst redis env dto 1 300000 1000 (1000 ∷ 1001 ∷ 1002 ∷ 1003 ∷ []) empty_window
      (omega arith) tt
      (
        omega arith,
        omega arith,
        (omega arith, omega arith, (omega arith, omega arith, (omega arith, omega arith, tt))),
      )

-- Two flags of one check.
abbrev flag_at : ℕ → FraudFlag
flag_at id = record {
  id = id;
  rule_id = 1;
  rule_name = "Amount";
  user_id = 7;
  reason = ("Amount", 7);
  severity = medium;
  status = open_flag;
  metadata = record {
    amount = 5;
    currency = 840;
    transaction_type = none;
    ip_address = 5;
    device_id = none;
    location = none;
    reviewed_at = none;
  };
  created_at = 10;
}

abbrev flagged : State
flagged = record state { flag_list = 3 ∷ 4 ∷ []; flags = λ j. some (flag_at j) }

flagged-Indexed : Indexed flagged.flags
flagged-Indexed id f e = ap (λ x. x.id) (sym (some-injective (flag_at id) f e))

review_flag-get_all_flags_example :
    get_all_flags (review_flag env 4 dismissed flagged).1
    ≡ map (λ x. if x.id == 4 then reviewed_flag env dismissed x else x) (get_all_flags flagged)
review_flag-get_all_flags_example =
    review_flag-get_all_flags env 4 dismissed flagged flagged-Indexed refl
