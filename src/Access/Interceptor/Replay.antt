-- ===== src/Access/Interceptor/Replay.antt =====
-- idempotency.interceptor.ts: a request that comes again.
use nexapay_fintech_super_ap.Common.{
  ℕ, ◌+◌, ◌<◌, ◌≡◌, refl, ◌∙◌, Option, none, some, lt→ltb, ==_refl,
}
use nexapay_fintech_super_ap.Common.Action.{Action, ok, err, conflict}
use nexapay_fintech_super_ap.Common.Clients.{Redis}
use nexapay_fintech_super_ap.Access.Interceptor.{
  with_key, State, idempotency_ttl, key_of, first_time, intercept,
}

module _ {C S A : Type 0} (redis : Redis C A) where
  intercept-replay :
      (now : ℕ) (header body : Option ℕ) (handler : Action S A) (s : State C S) {key : ℕ} {a : A}
      → key_of header body ≡ some key
      → redis.get now key s.cache ≡ some a
      → intercept redis now header body handler s ≡ (err conflict, s)
  unfolding intercept with_key
  intercept-replay now header body handler s k e = rw k (rw e refl)

  -- A request with a key that the cache does not hold runs its handler, and when that returns, so does
  -- the request; every further request with the same key within 24 hours throws a conflict and runs no
  -- handler, whatever it asks for.
  pub intercept-intercept :
      (now now' : ℕ) (header body header' body' : Option ℕ) (handler handler' : Action S A)
      (s : State C S) {key : ℕ} {a : A} {inner : S}
      → key_of header body ≡ some key
      → key_of header' body' ≡ some key
      → redis.get now key s.cache ≡ none
      → handler s.inner ≡ (ok a, inner)
      → now' < now + idempotency_ttl
      → (s' : State C S) × (intercept redis now header body handler s ≡ (ok a, s'))
        × (s'.inner ≡ inner)
        × (intercept redis now' header' body' handler' s' ≡ (err conflict, s'))
  unfolding intercept with_key first_time
  intercept-intercept now now' header body header' body' handler handler' s {key} {a} {inner} k k'
        new run soon =
      let s' : State C S = record {
        cache = redis.setex now key idempotency_ttl a s.cache;
        inner = inner;
      } in
      let held : redis.get now' key s'.cache ≡ some a =
        redis.get-setex now' now key key idempotency_ttl a s.cache
        ∙ rw (==_refl key) (rw (lt→ltb now' (now + idempotency_ttl) soon) refl) in
      (
        s',
        rw k (rw new (rw run refl)),
        refl,
        intercept-replay now' header' body' handler' s' k' held,
      )
