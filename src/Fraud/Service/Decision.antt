-- ===== src/Fraud/Service/Decision.antt =====
-- fraud.service.ts, `checkTransaction`: the answer by the rules that trigger.
use nexapay_fintech_super_ap.Common.{
  ℕ, ◌≡◌, ◌∙◌, refl, sym, ap, Bool, true, false, not, ◌&&◌, ◌||◌, List, [], ◌∷◌, ◌++◌, map, ltb,
  leb, if◌then◌else◌, length, any, length-map,
}
use mathlib.Core.List.{append_assoc, append-nil}
use nexapay_fintech_super_ap.Fraud.Entities.{
  Rule, CheckTransactionDto, FraudFlag, Redis, State, Env,
}
use nexapay_fintech_super_ap.Fraud.Repository.{is_frozen}
use nexapay_fintech_super_ap.Fraud.Service.{
  is_block, evaluate_rule, create_flag, save_flag, draw_id, check_rule, check_rules, get_all_rules,
  check_transaction,
}
use nexapay_fintech_super_ap.Fraud.Service.Rounds.{round_lem, or-false}
use nexapay_fintech_super_ap.Fraud.Service.Freezing.{frozen_after, same_frozen}

module _ (redis : Redis) (env : Env) (dto : CheckTransactionDto) where
  -- Whether a rule takes part and triggers.
  abbrev pub hits : Rule → State → Bool
  hits rule s = rule.enabled && (evaluate_rule redis env dto rule s).0

  -- The state that a rule leaves.
  pub after_rule : Rule → State → State
  after_rule rule s = (check_rule redis env dto rule [] false s).2

  -- The rules that trigger, each run in the state that the ones before it leave.
  pub triggered : List Rule → State → List Rule
  triggered [] s = []
  triggered (rule ∷ rules) s =
      let rest = triggered rules (after_rule rule s) in if hits rule s then rule ∷ rest else rest

  -- One round adds one flag if the rule triggers, and blocks if it is a blocking rule.
  check_rule-flags :
      (rule : Rule) (flags : List FraudFlag) (b : Bool) (s : State)
      → (map (λ f. f.rule_id) (check_rule redis env dto rule flags b s).0
          ≡ map (λ f. f.rule_id) flags ++ (if hits rule s then rule.id ∷ [] else []))
        × ((check_rule redis env dto rule flags b s).1
            ≡ (b || (hits rule s && is_block rule.action)))
        × ((check_rule redis env dto rule flags b s).2 ≡ after_rule rule s)
  unfolding check_rule after_rule create_flag draw_id
  check_rule-flags rule flags b s =
      let (hit, s') = evaluate_rule redis env dto rule s in
      let (f, s'') = create_flag env rule dto s' in
      round_lem rule.enabled hit (is_block rule.action) b flags f s s' (save_flag f s'')

  prepend :
      (hit : Bool) (rule : Rule) (rest : List Rule) (ids : List ℕ)
      → (ids ++ (if hit then rule.id ∷ [] else [])) ++ map (λ r. r.id) rest
        ≡ ids ++ map (λ r. r.id) (if hit then rule ∷ rest else rest)
  prepend true rule rest ids = append_assoc ids (rule.id ∷ []) (map (λ r. r.id) rest)
  prepend false rule rest ids = rw append-nil refl

  block_first :
      (hit : Bool) (rule : Rule) (rest : List Rule) (b : Bool)
      → ((b || (hit && is_block rule.action)) || any (λ r. is_block r.action) rest)
        ≡ (b || any (λ r. is_block r.action) (if hit then rule ∷ rest else rest))
  block_first true rule rest true = refl
  block_first true rule rest false = refl
  block_first false rule rest true = refl
  block_first false rule rest false = refl

  -- The loop collects the flags of the rules that trigger.
  pub check_rules-triggered :
      (rules : List Rule) (flags : List FraudFlag) (b : Bool) (s : State)
      → (map (λ f. f.rule_id) (check_rules redis env dto rules flags b s).0
          ≡ map (λ f. f.rule_id) flags ++ map (λ r. r.id) (triggered rules s))
        × ((check_rules redis env dto rules flags b s).1
            ≡ (b || any (λ r. is_block r.action) (triggered rules s)))
  unfolding check_rules triggered
  check_rules-triggered [] flags b s = rw append-nil (refl, or-false b)
  check_rules-triggered (rule ∷ rules) flags b s =
      let r = check_rule redis env dto rule flags b s in
      let (ids, blocks, after) = check_rule-flags rule flags b s in
      let (ids', blocks') = check_rules-triggered rules r.0 r.1 r.2 in
      (
        ids'
            ∙ ap (λ l. l ++ map (λ x. x.id) (triggered rules r.2)) ids
            ∙ ap
                (λ s'.
                  (map (λ f. f.rule_id) flags ++ (if hits rule s then rule.id ∷ [] else []))
                  ++ map (λ x. x.id) (triggered rules s'))
                after
            ∙ prepend (hits rule s) rule (triggered rules (after_rule rule s))
                (map (λ f. f.rule_id) flags),
        blocks'
            ∙ ap (λ c. c || any (λ x. is_block x.action) (triggered rules r.2)) blocks
            ∙ ap
                (λ s'.
                  (b || (hits rule s && is_block rule.action))
                  || any (λ x. is_block x.action) (triggered rules s'))
                after
            ∙ block_first (hits rule s) rule (triggered rules (after_rule rule s)) b,
      )

  -- The answer to a request, and the account afterwards. The flags are those of the enabled rules
  -- that trigger, in the order of the list; the request is allowed exactly when none of them is a
  -- blocking rule and they are fewer than the threshold; the account is frozen afterwards exactly
  -- when it was before or they reach the threshold.
  pub check_transaction-decides :
      (s : State)
      → let hit = triggered (get_all_rules s) s in
        let (answer, s') = check_transaction redis env dto s in
        (map (λ f. f.rule_id) answer.flags ≡ map (λ r. r.id) hit)
        × (answer.allowed
            ≡ not (any (λ r. is_block r.action) hit || leb env.freeze_threshold (length hit)))
        × (answer.has_flags ≡ ltb 0 (length hit))
        × (is_frozen dto.user_id s'
            ≡ (leb env.freeze_threshold (length hit) || is_frozen dto.user_id s))
  unfolding check_transaction
  check_transaction-decides s =
      let rules = get_all_rules s in
      let (ids, blocks) = check_rules-triggered rules [] false s in
      let (flags, b, s') = check_rules redis env dto rules [] false s in
      let count : length flags ≡ length (triggered rules s) =
        sym (length-map (λ f. f.rule_id) flags)
        ∙ ap length ids
        ∙ length-map (λ r. r.id) (triggered rules s) in
      (
        ids,
        ap (λ c. not (c || leb env.freeze_threshold (length flags))) blocks
            ∙ ap
                (λ n.
                  not (
                    any (λ r. is_block r.action) (triggered rules s) || leb env.freeze_threshold n))
                count,
        ap (ltb 0) count,
        frozen_after redis env dto (ltb 0 (length flags)) (leb env.freeze_threshold (length flags))
              flags s'
            ∙ ap (λ n. leb env.freeze_threshold n || is_frozen dto.user_id s') count
            ∙ ap (λ m. leb env.freeze_threshold (length (triggered rules s)) || m)
                (same_frozen redis env dto s),
      )
