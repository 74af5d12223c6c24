-- ===== src/Fraud/Service.antt =====
-- fraud.service.ts: the methods of `FraudService`.
pub mod Velocity
pub mod Signals
pub mod Decision
pub mod Rounds
pub mod Freezing
pub mod Reviews
use nexapay_fintech_super_ap.Common.{
  ℕ, ◌+◌, ◌-◌, ◌*◌, Bool, true, false, not, ◌&&◌, ◌||◌, Option, none, some, List, [], ◌∷◌, ◌++◌,
  map, ◌==◌, ltb, leb, if◌then◌else◌, or_else, length, filter,
}
use Prim.Native.String.{String}
use nexapay_fintech_super_ap.Common.Action.{Action, Result, ok, err, not_found}
use nexapay_fintech_super_ap.Fraud.Entities.{
  RuleType, RuleAction, Config, Rule, Severity, FlagStatus, CheckTransactionDto, CreateRuleDto,
  Metadata, FraudFlag, FraudCheckResponse, Alert, Window, Redis, State, Env, blank, unknown, usd,
  freeze_type, amount_threshold, velocity_per_user, velocity_per_ip, new_device, geo_anomaly,
  other_type, flag, block, freeze, medium, critical, open_flag, reviewed, dismissed,
}
use nexapay_fintech_super_ap.Fraud.Repository.{
  update, add_to_window, count_in_window, is_new_device, associate_device, get_last_location,
  set_last_location, set_frozen, is_frozen, delete_velocity_keys,
}

-- `redis.mget` of the listed ids, less what is missing.
abbrev pub fetch {ℓ} : {V : Type ℓ} → (ℕ → Option V) → List ℕ → List V
fetch m [] = []
fetch m (id ∷ ids) = elim (m id) [ none ↦ fetch m ids | some v ↦ v ∷ fetch m ids ]

pub get_all_rules : State → List Rule
get_all_rules s = fetch s.rules s.rule_list

pub get_all_flags : State → List FraudFlag
get_all_flags s = fetch s.flags s.flag_list

pub save_rule : Rule → State → State
save_rule rule s = record s { rules = update s.rules rule.id (some rule) }

pub save_flag : FraudFlag → State → State
save_flag f s = record s {
  flags = update s.flags f.id (some f);
  flag_list = s.flag_list ++ f.id ∷ [];
}

-- `generateId`
pub draw_id : Env → State → ℕ × State
draw_id env s = (env.ids s.drawn, record s { drawn = s.drawn + 1 })

abbrev pub no_config : Config
no_config = record { max_amount = none; max_count = none; window_minutes = none }

abbrev pub defaults : List (String × RuleType × Config)
defaults =
    ("High Amount Threshold", amount_threshold, record no_config { max_amount = some 1000000 })
    ∷ (
      "Per-User Velocity",
      velocity_per_user,
      record { max_amount = none; max_count = some 10; window_minutes = some 5 },
    )
    ∷ (
      "Per-IP Velocity",
      velocity_per_ip,
      record { max_amount = none; max_count = some 20; window_minutes = some 5 },
    )
    ∷ ("New Device Detection", new_device, no_config)
    ∷ ("Geo Anomaly Detection", geo_anomaly, no_config)
    ∷ []

-- A new rule is saved and listed.
add_rule : Env → String → RuleType → Config → Bool → RuleAction → State → Rule × State
add_rule env name type config enabled action s =
    let (id, s') = draw_id env s in
    let rule : Rule = record {
      id = id;
      name = name;
      type = type;
      config = config;
      enabled = enabled;
      action = action;
      created_at = env.now;
      updated_at = env.now;
    } in
    let s'' = save_rule rule s' in (rule, record s'' { rule_list = s''.rule_list ++ id ∷ [] })

add_defaults : Env → List (String × RuleType × Config) → State → State
add_defaults env [] s = s
add_defaults env ((name, type, config) ∷ rest) s =
    add_defaults env rest (add_rule env name type config true flag s).1

pub initialize_default_rules : Env → State → State
initialize_default_rules env s =
    if ltb 0 (length s.rule_list) then s else add_defaults env defaults s

pub create_rule : Env → CreateRuleDto → State → Rule × State
create_rule env dto s =
    add_rule env dto.name dto.type dto.config (or_else dto.enabled true) dto.action s

-- A missing text is falsy, and so is ''.
abbrev pub is_given : Option ℕ → Bool
is_given none = false
is_given (some t) = not (t == blank || t == unknown)

-- `windowMinutes * 60 * 1000`
abbrev pub window_of : Config → ℕ
window_of config = or_else config.window_minutes 5 * 60000

abbrev pub severity_of : RuleAction → Severity
severity_of freeze = critical
severity_of _ = medium

abbrev pub is_block : RuleAction → Bool
is_block block = true
is_block _ = false

create_flag : Env → Rule → CheckTransactionDto → State → FraudFlag × State
create_flag env rule dto s =
    let (id, s') = draw_id env s in
    (
      record {
        id = id;
        rule_id = rule.id;
        rule_name = rule.name;
        user_id = dto.user_id;
        reason = (rule.name, dto.user_id);
        severity = severity_of rule.action;
        status = open_flag;
        metadata = record {
          amount = dto.amount;
          currency = dto.currency;
          transaction_type = dto.transaction_type;
          ip_address = dto.ip_address;
          device_id = dto.device_id;
          location = dto.location;
          reviewed_at = none;
        };
        created_at = env.now;
      },
      s',
    )

pub emit_fraud_alert : Env → ℕ → ℕ → ℕ → List FraudFlag → State → State
emit_fraud_alert env user_id amount currency flags s =
    let alert : Alert = record {
      user_id = user_id;
      amount = amount;
      currency = currency;
      flags = map (λ f. (f.rule_id, f.rule_name, f.reason, f.severity)) flags;
      timestamp = env.now;
    } in
    if env.delivered then record s { alerts = s.alerts ++ alert ∷ [] } else s

pub freeze_account : Env → ℕ → State → State
freeze_account env account_id s =
    emit_fraud_alert env account_id 0 usd [] (set_frozen account_id true s)

abbrev pub same_status : FlagStatus → FlagStatus → Bool
same_status open_flag open_flag = true
same_status reviewed reviewed = true
same_status dismissed dismissed = true
same_status _ _ = false

pub get_flags : Option FlagStatus → State → List FraudFlag
get_flags none s = get_all_flags s
get_flags (some status) s = filter (λ f. same_status f.status status) (get_all_flags s)

-- Whether a flag was found, and the state.
pub review_flag : Env → ℕ → FlagStatus → State → Result FraudFlag × State
review_flag env id status s = elim (s.flags id) [
  | none ↦ (err not_found, s)
  | some f ↦
      let f' : FraudFlag = record f {
        status = status;
        metadata = record (f.metadata) { reviewed_at = some env.now };
      } in
      (ok f', record s { flags = update s.flags id (some f') })
]

module _ (redis : Redis) (env : Env) (dto : CheckTransactionDto) where
  -- The velocity rules: the count, then the new entry.
  pub check_velocity : ℕ → ℕ → Window → Bool × Window
  check_velocity max_count window w =
      let (count, rest) = count_in_window redis (env.now - window) env.now env.now w in
      (leb max_count count, add_to_window redis env.now env.now rest)

  check_device : ℕ → State → Bool × State
  check_device device_id s =
      if is_new_device redis dto.user_id device_id s
      then (true, associate_device redis dto.user_id device_id s)
      else (false, s)

  check_location : ℕ → Option ℕ → State → Bool × State
  check_location location none s = (false, set_last_location dto.user_id location s)
  check_location location (some last) s =
      if not (last == location)
      then (true, s)
      else (false, set_last_location dto.user_id location s)

  -- The `switch` of `evaluateRule`.
  pub evaluate : RuleType → Config → State → Bool × State
  evaluate amount_threshold config s = (ltb (or_else config.max_amount 1000000) dto.amount, s)
  evaluate velocity_per_user config s =
      let (hit, w) =
        check_velocity (or_else config.max_count 10) (window_of config)
          (s.user_windows dto.user_id) in
      (hit, record s { user_windows = update s.user_windows dto.user_id w })
  evaluate velocity_per_ip config s =
      let (hit, w) =
        check_velocity (or_else config.max_count 20) (window_of config)
          (s.ip_windows dto.ip_address) in
      (hit, record s { ip_windows = update s.ip_windows dto.ip_address w })
  evaluate new_device config s =
      if is_given dto.device_id then check_device (or_else dto.device_id blank) s else (false, s)
  evaluate geo_anomaly config s =
      if is_given dto.location
      then check_location (or_else dto.location blank) (get_last_location dto.user_id s) s
      else (false, s)
  evaluate other_type config s = (false, s)

  pub evaluate_rule : Rule → State → Bool × State
  evaluate_rule rule s = evaluate rule.type rule.config s

  -- One round of the loop of `checkTransaction`.
  pub check_rule : Rule → List FraudFlag → Bool → State → List FraudFlag × Bool × State
  check_rule rule flags should_block s =
      let (triggered, s') = evaluate_rule rule s in
      let (f, s'') = create_flag env rule dto s' in
      if not rule.enabled
      then (flags, should_block, s)
      else if triggered
      then (flags ++ f ∷ [], should_block || is_block rule.action, save_flag f s'')
      else (flags, should_block, s')

  -- The loop of `checkTransaction` over the rules, on its `flags` and `shouldBlock`.
  pub check_rules : List Rule → List FraudFlag → Bool → State → List FraudFlag × Bool × State
  check_rules [] flags should_block s = (flags, should_block, s)
  check_rules (rule ∷ rules) flags should_block s =
      let (flags', should_block', s') = check_rule rule flags should_block s in
      check_rules rules flags' should_block' s'

  pub check_transaction : State → FraudCheckResponse × State
  check_transaction s =
      let (flags, should_block, s') = check_rules (get_all_rules s) [] false s in
      let breached = leb env.freeze_threshold (length flags) in
      let s'' = if breached then freeze_account env dto.user_id s' else s' in
      let has_flags = ltb 0 (length flags) in
      let s''' =
        if has_flags
        then emit_fraud_alert env dto.user_id dto.amount dto.currency flags s''
        else s'' in
      (
        record { allowed = not (should_block || breached); has_flags = has_flags; flags = flags },
        s''',
      )

pub clean_expired_data : State → State
clean_expired_data s = delete_velocity_keys s
