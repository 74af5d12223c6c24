-- ===== src/Fraud/Service/Velocity.antt =====
-- fraud.service.ts, `evaluateRule`: what the velocity rules count in their windows.
use nexapay_fintech_super_ap.Common.{
  inr, inl, Bool-cases, ℕ, ◌+◌, ◌-◌, ◌≤◌, ◌<◌, ◌≡◌, refl, Bool, true, false, not, List, [], ◌∷◌,
  leb, ltb, length, filter, All, arith,
}
use nexapay_fintech_super_ap.Fraud.Entities.{
  CheckTransactionDto, Entries, Window, in_range, Redis, Env,
}
use nexapay_fintech_super_ap.Fraud.Repository.{
  live, window_ttl, add_to_window_lem, count_in_window_lem,
}
use nexapay_fintech_super_ap.Fraud.Service.{check_velocity}

-- An entry that the rule's call removes.
abbrev pub recent : ℕ → ℕ → ℕ × ℕ → Bool
recent window now e = in_range (now - window) now e

filter-recent_none :
    (window now : ℕ) (es : Entries)
    → All (λ e. recent window now e ≡ true) es
    → filter (λ e. not (recent window now e)) es ≡ []
filter-recent_none window now [] h = refl
filter-recent_none window now (e ∷ es) (first, rest) =
    rw first (filter-recent_none window now es rest)

live_nothing : (now until : ℕ) → live now (record { entries = []; expires_at = until }) ≡ []
live_nothing now until = ground arith

leb_zero : (n : ℕ) → 0 < n → leb n 0 ≡ false
leb_zero n h = ground arith

module _ (redis : Redis) (env : Env) (dto : CheckTransactionDto) where
  -- A velocity rule triggers exactly when the entries that are not in its window number at least
  -- its limit.
  pub check_velocity-counts_old :
      (max_count window : ℕ) (w : Window)
      → (check_velocity redis env dto max_count window w).0
        ≡ leb max_count (length (filter (λ e. not (recent window env.now e)) (live env.now w)))
  unfolding check_velocity
  check_velocity-counts_old max_count window w =
      rw (count_in_window_lem redis (env.now - window) env.now env.now w)

  -- Where all entries are in the window the rule does not trigger, and forgets them all.
  pub check_velocity-recent :
      (max_count window : ℕ) (w : Window)
      → 0 < max_count
      → All (λ e. recent window env.now e ≡ true) (live env.now w)
      → check_velocity redis env dto max_count window w
        ≡ (false, record { entries = (env.now, env.now) ∷ []; expires_at = env.now + window_ttl })
  unfolding check_velocity
  check_velocity-recent max_count window w pos h =
      rw (count_in_window_lem redis (env.now - window) env.now env.now w) (
        rw (filter-recent_none window env.now (live env.now w) h) (
          rw (add_to_window_lem redis env.now env.now (record w { entries = [] }))
            (rw (live_nothing env.now w.expires_at) (rw (leb_zero max_count pos)))))

-- The answers of a velocity rule at a list of times.
pub answers : Redis → Env → CheckTransactionDto → ℕ → ℕ → List ℕ → Window → List Bool
answers redis env dto max_count window [] w = []
answers redis env dto max_count window (t ∷ times) w =
    let (hit, w') = check_velocity redis (record env { now = t }) dto max_count window w in
    hit ∷ answers redis env dto max_count window times w'

-- Each time comes no earlier than the one before, and within the window of it.
abbrev pub Burst : ℕ → ℕ → List ℕ → Type 0
Burst window last [] = Unit
Burst window last (t ∷ times) = (last ≤ t) × (t ≤ last + window) × Burst window t times

recent_of_last :
    (window last t : ℕ) (es : Entries)
    → last ≤ t
    → t ≤ last + window
    → All (λ e. e.1 ≡ last) es
    → All (λ e. recent window t e ≡ true) es
recent_of_last window last t [] h k a = tt
recent_of_last window last t (e ∷ es) h k (first, rest) =
    (ground arith, recent_of_last window last t es h k rest)

recent_of_live :
    (window last t : ℕ) (w : Window)
    → last ≤ t
    → t ≤ last + window
    → All (λ e. e.1 ≡ last) w.entries
    → All (λ e. recent window t e ≡ true) (live t w)
recent_of_live window last t w h k a = elim (Bool-cases (ltb t w.expires_at)) [
  | inl e ↦ rw e (recent_of_last window last t w.entries h k a)
  | inr e ↦ rw e tt
]

-- A velocity rule with a positive limit, where every stored entry is of one time `last`, never
-- triggers on a burst that follows, of any length: if the first transaction comes within the window
-- of `last`, and each other one within the window of the one before it, every answer is `false`.
pub answers-Burst :
    (redis : Redis) (env : Env) (dto : CheckTransactionDto) (max_count window last : ℕ)
    (times : List ℕ) (w : Window)
    → 0 < max_count
    → All (λ e. e.1 ≡ last) w.entries
    → Burst window last times
    → All (λ hit. hit ≡ false) (answers redis env dto max_count window times w)
unfolding answers
answers-Burst redis env dto max_count window last [] w pos a b = tt
answers-Burst redis env dto max_count window last (t ∷ times) w pos a (h, k, rest) =
    rw
      (check_velocity-recent redis (record env { now = t }) dto max_count window w pos
        (recent_of_live window last t w h k a))
      (
        refl,
        answers-Burst redis env dto max_count window t times
            (record { entries = (t, t) ∷ []; expires_at = t + window_ttl }) pos (refl, tt) rest,
      )
