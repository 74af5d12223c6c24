-- ===== src/Fraud/Entities.antt =====
-- rule.entity.ts, the DTOs and the interfaces of fraud.service.ts. Ids, addresses, places and
-- currency codes are only compared, and are numbers; amounts are in cents, times in milliseconds.
use nexapay_fintech_super_ap.Common.{
  ℕ, ◌≡◌, Bool, not, ◌&&◌, ◌||◌, Option, List, ◌∷◌, ◌==◌, leb, filter, length, any,
}
use Prim.Native.String.{String}

pub data RuleType : Type 0 where
  amount_threshold velocity_per_user velocity_per_ip new_device geo_anomaly : RuleType
  -- A stored type that the `switch` has no case for.
  other_type : RuleType

pub data RuleAction : Type 0 where
  flag block freeze : RuleAction

-- The entries of `config` that the rules read.
pub record Config : Type 0 where
  pub max_amount : Option ℕ
  pub max_count : Option ℕ
  pub window_minutes : Option ℕ

pub record Rule : Type 0 where
  pub id : ℕ
  pub name : String
  pub type : RuleType
  pub config : Config
  pub enabled : Bool
  pub action : RuleAction
  pub created_at : ℕ
  pub updated_at : ℕ

pub data Severity : Type 0 where
  low medium high critical : Severity

pub data FlagStatus : Type 0 where
  open_flag reviewed dismissed : FlagStatus

pub record CheckTransactionDto : Type 0 where
  pub user_id : ℕ
  pub amount : ℕ
  pub currency : ℕ
  pub ip_address : ℕ
  pub device_id : Option ℕ
  pub location : Option ℕ
  pub transaction_type : Option ℕ

pub record CreateRuleDto : Type 0 where
  pub name : String
  pub type : RuleType
  pub config : Config
  pub enabled : Option Bool
  pub action : RuleAction

pub record Metadata : Type 0 where
  pub amount : ℕ
  pub currency : ℕ
  pub transaction_type : Option ℕ
  pub ip_address : ℕ
  pub device_id : Option ℕ
  pub location : Option ℕ
  pub reviewed_at : Option ℕ

-- The reason is the text `${rule_name} triggered for user ${user_id}`.
pub record FraudFlag : Type 0 where
  pub id : ℕ
  pub rule_id : ℕ
  pub rule_name : String
  pub user_id : ℕ
  pub reason : String × ℕ
  pub severity : Severity
  pub status : FlagStatus
  pub metadata : Metadata
  pub created_at : ℕ

pub record FraudCheckResponse : Type 0 where
  pub allowed : Bool
  pub has_flags : Bool
  pub flags : List FraudFlag

-- What `fraud.alert` carries of the flags it reports.
pub record Alert : Type 0 where
  pub user_id : ℕ
  pub amount : ℕ
  pub currency : ℕ
  pub flags : List (ℕ × String × (String × ℕ) × Severity)
  pub timestamp : ℕ

-- A sorted set: members with their scores. A member `${id}:${now}` of the key of `id` is its `now`.
abbrev pub Entries : Type 0
Entries = List (ℕ × ℕ)

-- A sorted set with the time at which its key expires.
pub record Window : Type 0 where
  pub entries : Entries
  pub expires_at : ℕ

abbrev pub in_range : ℕ → ℕ → ℕ × ℕ → Bool
in_range lo hi e = leb lo e.1 && leb e.1 hi

-- The calls of Redis on sorted sets and sets.
pub record Redis : Type 0 where
  pub zadd : ℕ → ℕ → Entries → Entries
  pub zremrangebyscore : ℕ → ℕ → Entries → Entries
  pub zcard : Entries → ℕ
  pub sadd : ℕ → List ℕ → List ℕ
  pub sismember : ℕ → List ℕ → Bool
  pub zadd_lem :
      (score member : ℕ) (z : Entries)
      → zadd score member z ≡ (member, score) ∷ filter (λ e. not (e.0 == member)) z
  pub zremrangebyscore_lem :
      (lo hi : ℕ) (z : Entries) → zremrangebyscore lo hi z ≡ filter (λ e. not (in_range lo hi e)) z
  pub zcard_lem : (z : Entries) → zcard z ≡ length z
  pub sismember_lem : (m : ℕ) (s : List ℕ) → sismember m s ≡ any (λ x. x == m) s
  pub sismember-sadd : (m x : ℕ) (s : List ℕ) → sismember m (sadd x s) ≡ ((m == x) || sismember m s)

-- The contents of Redis, a map for each family of keys; the ids drawn; the alerts sent.
pub record State : Type 0 where
  pub rule_list : List ℕ
  pub rules : ℕ → Option Rule
  pub flag_list : List ℕ
  pub flags : ℕ → Option FraudFlag
  pub user_windows : ℕ → Window
  pub ip_windows : ℕ → Window
  pub devices : ℕ → List ℕ
  pub locations : ℕ → Option ℕ
  pub frozen : ℕ → Bool
  pub drawn : ℕ
  pub alerts : List Alert

-- The clock, the random ids in the order in which they are drawn, FREEZE_THRESHOLD, and whether
-- Kafka takes an alert.
pub record Env : Type 0 where
  pub now : ℕ
  pub ids : ℕ → ℕ
  pub freeze_threshold : ℕ
  pub delivered : Bool

-- The texts '' and 'unknown', and 'USD' and 'freeze'.
abbrev pub blank : ℕ
blank = 0

abbrev pub unknown : ℕ
unknown = 1

abbrev pub usd : ℕ
usd = 840

abbrev pub freeze_type : ℕ
freeze_type = 2
