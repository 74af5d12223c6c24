-- ===== src/Fraud/Service/Freezing.antt =====
-- fraud.service.ts, `checkTransaction`: the accounts that are frozen after a check.
use nexapay_fintech_super_ap.Common.{
  Option-cases, or_else, ℕ, ◌≡◌, ◌∙◌, refl, ap, Bool, true, false, not, ◌||◌, List, [], ◌∷◌, ◌==◌,
  if◌then◌else◌, Bool-cases, inl, inr, ==_refl,
}
use nexapay_fintech_super_ap.Fraud.Entities.{
  amount_threshold, velocity_per_user, velocity_per_ip, new_device, geo_anomaly, other_type, blank,
  Config, usd, Rule, RuleType, CheckTransactionDto, FraudFlag, Redis, State, Env,
}
use nexapay_fintech_super_ap.Fraud.Repository.{
  get_last_location, is_new_device, set_last_location, associate_device, set_frozen, is_frozen,
}
use nexapay_fintech_super_ap.Fraud.Service.{
  is_given, check_location, check_device, evaluate, is_block, evaluate_rule, create_flag, save_flag,
  draw_id, check_rule, check_rules, get_all_rules, freeze_account, emit_fraud_alert,
}
use nexapay_fintech_super_ap.Fraud.Service.Rounds.{round_frozen}

module _ (redis : Redis) (env : Env) (dto : CheckTransactionDto) where
  emit_fraud_alert-frozen :
      (user amount currency : ℕ) (flags : List FraudFlag) (s : State)
      → (emit_fraud_alert env user amount currency flags s).frozen ≡ s.frozen
  unfolding emit_fraud_alert
  emit_fraud_alert-frozen user amount currency flags s = elim (Bool-cases env.delivered) [
    | inl e ↦ rw e refl
    | inr e ↦ rw e refl
  ]

  freeze_account-is_frozen :
      (user : ℕ) (s : State) → is_frozen user (freeze_account env user s) ≡ true
  unfolding freeze_account is_frozen set_frozen
  freeze_account-is_frozen user s =
      rw (emit_fraud_alert-frozen user 0 usd [] (set_frozen user true s)) (rw (==_refl user) refl)

  pub frozen_after :
      (flagged breached : Bool) (flags : List FraudFlag) (s : State)
      → let s' = if breached then freeze_account env dto.user_id s else s in
        is_frozen dto.user_id (
          if flagged then emit_fraud_alert env dto.user_id dto.amount dto.currency flags s' else s')
        ≡ (breached || is_frozen dto.user_id s)
  unfolding is_frozen
  frozen_after true true flags s =
      rw
        (emit_fraud_alert-frozen dto.user_id dto.amount dto.currency flags
          (freeze_account env dto.user_id s))
        (freeze_account-is_frozen dto.user_id s)
  frozen_after true false flags s =
      rw (emit_fraud_alert-frozen dto.user_id dto.amount dto.currency flags s) refl
  frozen_after false true flags s = freeze_account-is_frozen dto.user_id s
  frozen_after false false flags s = refl

  if_frozen :
      (b : Bool) (x y : Bool × State) (z : ℕ → Bool)
      → x.1.frozen ≡ z
      → y.1.frozen ≡ z
      → (if b then x else y).1.frozen ≡ z
  if_frozen true x y z h k = h
  if_frozen false x y z h k = k

  evaluate-frozen :
      (type : RuleType) (config : Config) (s : State)
      → (evaluate redis env dto type config s).1.frozen ≡ s.frozen
  unfolding evaluate check_device check_location associate_device set_last_location
  evaluate-frozen amount_threshold config s = refl
  evaluate-frozen velocity_per_user config s = refl
  evaluate-frozen velocity_per_ip config s = refl
  evaluate-frozen new_device config s =
      if_frozen (is_given dto.device_id) _ _ s.frozen
        (if_frozen (is_new_device redis dto.user_id (or_else dto.device_id blank) s) _ _ s.frozen
          refl refl)
        refl
  evaluate-frozen geo_anomaly config s =
      if_frozen (is_given dto.location) _ _ s.frozen
        (elim (Option-cases (get_last_location dto.user_id s)) [
          | inl e ↦ rw e refl
          | inr (last, e) ↦
              rw e (if_frozen (not (last == or_else dto.location blank)) _ _ s.frozen refl refl)
        ])
        refl
  evaluate-frozen other_type config s = refl

  check_rule-frozen :
      (rule : Rule) (flags : List FraudFlag) (b : Bool) (s : State)
      → (check_rule redis env dto rule flags b s).2.frozen ≡ s.frozen
  unfolding check_rule evaluate_rule create_flag save_flag draw_id
  check_rule-frozen rule flags b s =
      let e = evaluate-frozen rule.type rule.config s in
      let (hit, s') = evaluate_rule redis env dto rule s in
      let (f, s'') = create_flag env rule dto s' in
      round_frozen rule.enabled hit (is_block rule.action) b flags f s s' (save_flag f s'') e e

  check_rules-frozen :
      (rules : List Rule) (flags : List FraudFlag) (b : Bool) (s : State)
      → (check_rules redis env dto rules flags b s).2.frozen ≡ s.frozen
  unfolding check_rules
  check_rules-frozen [] flags b s = refl
  check_rules-frozen (rule ∷ rules) flags b s =
      let r = check_rule redis env dto rule flags b s in
      check_rules-frozen rules r.0 r.1 r.2 ∙ check_rule-frozen rule flags b s

  pub same_frozen :
      (s : State)
      → is_frozen dto.user_id (check_rules redis env dto (get_all_rules s) [] false s).2
        ≡ is_frozen dto.user_id s
  unfolding is_frozen
  same_frozen s = ap (λ m. m dto.user_id) (check_rules-frozen (get_all_rules s) [] false s)
