-- ===== src/Utils/AuditLog.antt =====
-- audit-log.ts: the entries of the audit log, and the changes between two versions of an entity.
-- Texts and keys are only compared, and are numbers.
pub mod Diff
use nexapay_fintech_super_ap.Common.{
  ℕ, Bool, true, false, not, Option, none, some, List, [], ◌∷◌, ◌++◌, ◌==◌, any, map, or_else,
  if◌then◌else◌,
}

pub data ActorType : Type 0 where
  user system admin support compliance service cron : ActorType

pub data AuditSeverity : Type 0 where
  info warning error critical : AuditSeverity

pub data AuditAction : Type 0 where
  user_created user_logged_in user_logged_out user_password_changed user_profile_updated
        user_role_changed user_deactivated user_activated user_deleted :
      AuditAction
  kyc_submitted kyc_verified kyc_rejected kyc_expired : AuditAction
  wallet_created wallet_credited wallet_debited wallet_frozen wallet_unfrozen : AuditAction
  transfer_initiated transfer_completed transfer_failed transfer_reversed : AuditAction
  loan_applied loan_approved loan_rejected loan_disbursed loan_repaid loan_defaulted
        loan_written_off loan_restructured :
      AuditAction
  investment_purchased investment_withdrawn investment_matured : AuditAction
  fraud_alert_created fraud_alert_resolved notification_sent report_generated settings_updated
        permission_changed :
      AuditAction

-- An object: its keys with their values, in order.
abbrev pub Object : Type 0 → Type 0
Object V = List (ℕ × V)

-- `object[key]`; `none` is undefined.
abbrev pub lookup : {V : Type 0} → ℕ → Object V → Option V
lookup key [] = none
lookup key ((k, v) ∷ rest) = if k == key then some v else lookup key rest

-- `object[key] = value`: a key that is there keeps its place.
abbrev pub assign : {V : Type 0} → ℕ → V → Object V → Object V
assign key value [] = (key, value) ∷ []
assign key value ((k, v) ∷ rest) =
    let later = assign key value rest in if k == key then (k, value) ∷ rest else (k, v) ∷ later

abbrev pub keys : {V : Type 0} → Object V → List ℕ
keys = map (λ e. e.0)

pub record AuditChangeValue (V : Type 0) : Type 0 where
  pub from_ : Option V
  pub to_ : Option V

-- A field that is undefined or null is `none`. The action is any string: `none` is one that is not an
-- AuditAction.
pub record AuditLogInput (V : Type 0) : Type 0 where
  pub actor_id : ℕ
  pub actor_type : ActorType
  pub action : Option AuditAction × ℕ
  pub entity_type : ℕ
  pub entity_id : ℕ
  pub changes : Option (Object (AuditChangeValue V))
  pub metadata : Option (Object V)
  pub ip_address : Option ℕ
  pub user_agent : Option ℕ
  pub correlation_id : Option ℕ
  pub severity : Option AuditSeverity

pub record AuditLogEntry (V : Type 0) : Type 0 where
  pub id : ℕ
  pub actor_id : ℕ
  pub actor_type : ActorType
  pub action : Option AuditAction × ℕ
  pub entity_type : ℕ
  pub entity_id : ℕ
  pub changes : Option (Object (AuditChangeValue V))
  pub metadata : Object V
  pub ip_address : Option ℕ
  pub user_agent : Option ℕ
  pub correlation_id : Option ℕ
  pub severity : AuditSeverity
  pub timestamp : ℕ

-- The id that `uuidv4` draws, the clock, and the names and values of the metadata that every entry
-- gets, with their defaults.
pub record Env (V : Type 0) : Type 0 where
  pub uuid : ℕ
  pub now : ℕ
  pub environment_key : ℕ
  pub service_key : ℕ
  pub environment : V
  pub service : V
  pub system_id : ℕ

abbrev pub action_severity : AuditAction → Option AuditSeverity
action_severity AuditAction.user_deactivated = some AuditSeverity.warning
action_severity AuditAction.user_deleted = some AuditSeverity.critical
action_severity AuditAction.transfer_failed = some AuditSeverity.warning
action_severity AuditAction.loan_defaulted = some AuditSeverity.error
action_severity AuditAction.loan_written_off = some AuditSeverity.error
action_severity AuditAction.fraud_alert_created = some AuditSeverity.critical
action_severity AuditAction.permission_changed = some AuditSeverity.warning
action_severity _ = none

-- `input.severity ?? ACTION_SEVERITY_MAP[input.action] ?? DEFAULT_SEVERITY`
abbrev pub severity_of : Option AuditSeverity → Option AuditAction → AuditSeverity
severity_of (some s) action = s
severity_of none none = AuditSeverity.info
severity_of none (some action) = or_else (action_severity action) AuditSeverity.info

module _ {V : Type 0} where
  pub create_audit_log_entry : Env V → AuditLogInput V → AuditLogEntry V
  create_audit_log_entry env input = record {
    id = env.uuid;
    actor_id = input.actor_id;
    actor_type = input.actor_type;
    action = input.action;
    entity_type = input.entity_type;
    entity_id = input.entity_id;
    changes = input.changes;
    metadata =
        assign env.service_key env.service
          (assign env.environment_key env.environment (or_else input.metadata []));
    ip_address = input.ip_address;
    user_agent = input.user_agent;
    correlation_id = input.correlation_id;
    severity = severity_of input.severity (input.action.0);
    timestamp = env.now;
  }

  pub create_system_audit_entry :
      Env V → AuditAction × ℕ → ℕ → ℕ → Option (Object V) → AuditLogEntry V
  create_system_audit_entry env (action, text) entity_type entity_id metadata =
      create_audit_log_entry env (record {
        actor_id = env.system_id;
        actor_type = ActorType.system;
        action = (some action, text);
        entity_type = entity_type;
        entity_id = entity_id;
        changes = none;
        metadata = metadata;
        ip_address = none;
        user_agent = none;
        correlation_id = none;
        severity = none;
      })

-- `new Set(list)`: each element at its first place.
abbrev pub distinct_from : List ℕ → List ℕ → List ℕ
distinct_from seen [] = []
distinct_from seen (x ∷ xs) =
    if any (λ y. y == x) seen then distinct_from seen xs else x ∷ distinct_from (x ∷ seen) xs

-- The comparison of two values is by what `JSON.stringify` makes of them, a parameter.
module _ {V : Type 0} (stringify : Option V → ℕ) where
  -- The loop of `createAuditDiff` over the keys.
  unfoldable pub diff_loop :
      List ℕ → Object V → Object V → Object (AuditChangeValue V) → Object (AuditChangeValue V)
  diff_loop [] before after changes = changes
  diff_loop (key ∷ rest) before after changes =
      let old_value = lookup key before in
      let new_value = lookup key after in
      diff_loop rest before after (
        if stringify old_value == stringify new_value
        then changes
        else assign key (record { from_ = old_value; to_ = new_value }) changes)

  unfoldable pub create_audit_diff : Object V → Object V → Object (AuditChangeValue V)
  create_audit_diff before after =
      diff_loop (distinct_from [] (keys before ++ keys after)) before after []
