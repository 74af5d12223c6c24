-- ===== src/Loan/Service/RateLimit.antt =====
-- loan.service.ts, `checkRateLimit`: the limit on applications.
use nexapay_fintech_super_ap.Common.{
  ℕ, zero, suc, ◌+◌, ◌-◌, ◌≡◌, refl, ◌∙◌, Bool, true, false, ◌==◌, leb, min, arith, Bool-cases, ap,
  inl, inr, if◌then◌else◌,
}
use nexapay_fintech_super_ap.Common.Action.{Action, ◌>>=◌, pure, ok, err, Result, continue}
use nexapay_fintech_super_ap.Loan.Entities.{Clients, State, Env}
use nexapay_fintech_super_ap.Loan.Service.{check_rate_limit, rate_limit_max, rate_limit_window}

counted_lem :
    {S : Type 0} (b : Bool) (r : Result ℕ × S) {m : ℕ}
    → r.0 ≡ ok m
    → (continue r (λ n. pure (if b then suc n else n))).0 ≡ ok (if b then suc m else m)
counted_lem true (ok a, s) e = cc
counted_lem false (ok a, s) e = cc
counted_lem b (err x, s) e = cc

remaining_lem :
    (n k k' : ℕ)
    → k' ≡ k + 1
    → (if leb (k + 1) rate_limit_max
        then suc (min n (rate_limit_max - k'))
        else min n (rate_limit_max - k'))
      ≡ min (suc n) (rate_limit_max - k)
remaining_lem n k k' e = ground arith

module _ {R : Type 0} (c : Clients R) (env : Env) (user_id : ℕ) where
  -- One check: the answer, and the counter one higher.
  check_rate_limit_lem :
      (s : State R)
      → let n = c.counted env.now user_id s.counters + 1 in
        (r : R) × (check_rate_limit c env user_id s
          ≡ (ok (leb n rate_limit_max), record s { counters = r }))
        × (c.counted env.now user_id r ≡ n)
  unfolding check_rate_limit
  check_rate_limit_lem s =
      let r = (c.incr env.now user_id s.counters).1 in
      let n = c.counted env.now user_id s.counters + 1 in
      elim (Bool-cases (n == 1)) [
        | inl e ↦ (
          c.expire env.now user_id rate_limit_window r,
          rw (c.incr_lem env.now user_id s.counters) (rw e refl),
          c.counted-expire env.now user_id rate_limit_window r (omega arith)
              ∙ c.counted-incr env.now user_id s.counters,
        )
        | inr e ↦ (
          r,
          rw (c.incr_lem env.now user_id s.counters) (rw e refl),
          c.counted-incr env.now user_id s.counters,
        )
      ]

  -- How many of a number of checks are allowed.
  pub attempts : ℕ → Action (State R) ℕ
  attempts zero = pure 0
  attempts (suc n) = do
    allowed ← check_rate_limit c env user_id
    count ← attempts n
    pure (if allowed then suc count else count)

  -- Of any number of applications that a user makes at one time, the first ones pass the limit: the
  -- number that passes is the smaller of theirs and of what the counter leaves of three.
  pub attempts_limited :
      (n : ℕ) (s : State R)
      → (attempts n s).0 ≡ ok (min n (rate_limit_max - c.counted env.now user_id s.counters))
  unfolding attempts
  attempts_limited zero s = ap ok (omega arith)
  attempts_limited (suc n) s =
      let (r, run, count) = check_rate_limit_lem s in
      let rest = attempts_limited n (record s { counters = r }) in
      rw run (
        counted_lem (leb (c.counted env.now user_id s.counters + 1) rate_limit_max)
          (attempts n (record s { counters = r })) rest
        ∙ ap ok (
            remaining_lem n (c.counted env.now user_id s.counters) (c.counted env.now user_id r)
              count))
