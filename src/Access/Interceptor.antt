-- ===== src/Access/Interceptor.antt =====
-- idempotency.interceptor.ts: `intercept` around a handler. The values are what `JSON.stringify` makes of
-- the responses; keys are numbers, and 0 is the empty one.
pub mod Replay
use nexapay_fintech_super_ap.Common.{ℕ, Option, none, some, ◌==◌, if◌then◌else◌}
use nexapay_fintech_super_ap.Common.Action.{
  Action, Result, ok, err, ◌>>=◌, ◌>>◌, pure, throw, gets, modify, conflict,
}
use nexapay_fintech_super_ap.Common.Clients.{Redis}

-- 24 hours, in milliseconds.
abbrev pub idempotency_ttl : ℕ
idempotency_ttl = 86400000

-- An empty key, 0, is none.
abbrev pub truthy : ℕ → Option ℕ
truthy key = if key == 0 then none else some key

-- The header, or else the field of the body.
abbrev pub key_of : Option ℕ → Option ℕ → Option ℕ
key_of (some header) _ = truthy header
key_of none (some body) = truthy body
key_of none none = none

-- The Redis of the interceptor, and the state of the service behind it.
pub record State (C S : Type 0) : Type 0 where
  pub cache : C
  pub inner : S

module _ {C S A : Type 0} (redis : Redis C A) where
  -- `next.handle()`
  abbrev pub handled : Action S A → Action (State C S) A
  handled handler s = let (r, inner) = handler s.inner in (r, record s { inner = inner })

  -- With a new key the response is kept; an error is passed on and not kept.
  pub first_time : ℕ → ℕ → Action S A → Action (State C S) A
  first_time now key handler = do
    response ← handled handler
    modify (λ s. record s { cache = redis.setex now key idempotency_ttl response s.cache })
    pure response

  pub with_key : ℕ → Option ℕ → Action S A → Action (State C S) A
  with_key now none handler = handled handler
  with_key now (some key) handler = do
    existing ← gets (λ s. redis.get now key s.cache)
    elim existing [ none ↦ first_time now key handler | some _ ↦ throw conflict ]

  pub intercept : ℕ → Option ℕ → Option ℕ → Action S A → Action (State C S) A
  intercept now header body handler = with_key now (key_of header body) handler
