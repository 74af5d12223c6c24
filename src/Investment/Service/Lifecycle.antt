-- ===== src/Investment/Service/Lifecycle.antt =====
-- investment.service.ts: what a sequence of calls may do to the investments.
use nexapay_fintech_super_ap.Investment.Valuation.{returns_of}
use nexapay_fintech_super_ap.Investment.Repository.Calls.{product_in}
use nexapay_fintech_super_ap.Common.{
  eq_of_==, none, ℕ, ◌≡◌, refl, sym, ap, subst, ◌∙◌, Bool, true, false, List, [], ◌∷◌, ◌++◌, ◌==◌,
  any, map, Bool-cases, inl, inr, some, arith,
}
use mathlib.Core.Option
use nexapay_fintech_super_ap.Common.Rows.{find?, replace, find?-append_some, find?-replace_other}
use nexapay_fintech_super_ap.Common.Action.{Result}
use nexapay_fintech_super_ap.Investment.Entities.{
  InvestmentStatus, ProductRow, Investment, BuyInvestmentDto, WithdrawInvestmentDto, BuyResult,
  WithdrawResult, State, Clients, Env, is_active,
}
use nexapay_fintech_super_ap.Investment.Repository.{is_due, has_id, set_status}
use nexapay_fintech_super_ap.Investment.Service.{
  buy_investment, withdraw_investment, process_maturations, new_investment,
}
use nexapay_fintech_super_ap.Investment.Service.Outcomes.{
  BuyOutcome, WithdrawOutcome, buy_investment-BuyOutcome, withdraw_investment-WithdrawOutcome,
}
use nexapay_fintech_super_ap.Investment.Service.Maturations.{
  Fresh, settled, process_maturations-settled,
}

module _ (casts : ℕ → Bool) where
  any-append_false :
      (p : ℕ → Bool) (xs : List ℕ) (y : ℕ)
      → any p xs ≡ false
      → p y ≡ false
      → any p (xs ++ y ∷ []) ≡ false
  any-append_false p [] y e h = rw h refl
  any-append_false p (x ∷ xs) y e h = ground (arith, any-append_false p xs y)

  Fresh-replace :
      (p : Investment → Bool) (f : Investment → Investment) (xs : List Investment) (ids : List ℕ)
      → ((x : Investment) → (f x).id ≡ x.id)
      → Fresh casts xs ids
      → Fresh casts (replace p f xs) ids
  Fresh-replace p f [] ids same fresh = fresh
  Fresh-replace p f (x ∷ xs) ids same (a, b, rest) = elim (Bool-cases (p x)) [
    | inl e ↦ rw e (rw (same x) (a, b, rest))
    | inr e ↦ rw e (a, b, Fresh-replace p f xs (ids ++ x.id ∷ []) same rest)
  ]

  Fresh-map :
      (f : Investment → Investment) (xs : List Investment) (ids : List ℕ)
      → ((x : Investment) → (f x).id ≡ x.id)
      → Fresh casts xs ids
      → Fresh casts (map f xs) ids
  Fresh-map f [] ids same fresh = fresh
  Fresh-map f (x ∷ xs) ids same (a, b, rest) =
      rw (same x) (a, b, Fresh-map f xs (ids ++ x.id ∷ []) same rest)

  Fresh-append :
      (xs : List Investment) (ids : List ℕ) (v : Investment)
      → casts v.id ≡ true
      → any (has_id v.id) xs ≡ false
      → any (λ x. x == v.id) ids ≡ false
      → Fresh casts xs ids
      → Fresh casts (xs ++ v ∷ []) ids
  Fresh-append [] ids v e h i fresh = (e, i, tt)
  Fresh-append (x ∷ xs) ids v e h i (a, b, rest) = (
    a,
    b,
    Fresh-append xs (ids ++ x.id ∷ []) v e (ground arith)
        (any-append_false (λ y. y == v.id) ids x.id i (ground arith)) rest,
  )

find?-map :
    (p : Investment → Bool) (f : Investment → Investment) (xs : List Investment)
    → ((x : Investment) → p (f x) ≡ p x)
    → find? p (map f xs) ≡ Option.map f (find? p xs)
find?-map p f [] same = refl
find?-map p f (x ∷ xs) same = elim (Bool-cases (p x)) [
  | inl e ↦ rw (same x) (rw e refl)
  | inr e ↦ rw (same x) (rw e (find?-map p f xs same))
]

settled_id :
    (products : List ProductRow) (now : ℕ) (i : Investment) → (settled products now i).id ≡ i.id
settled_id products now i = elim (Bool-cases (is_due now i)) [ inl e ↦ rw e | inr e ↦ rw e ]

settled_closed :
    (products : List ProductRow) (now : ℕ) (i : Investment)
    → is_active i.status ≡ false
    → settled products now i ≡ i
settled_closed products now i closed = rw closed refl

module _ (c : Clients) where
  -- A call that may change the state, and the state it leaves, whether it returns or throws.
  pub data Step : State → State → Type 0 where
    buys : (env : Env) (dto : BuyInvestmentDto) (s : State) → Step s (buy_investment c env dto s).1
    withdraws :
        (env : Env) (id : ℕ) (dto : WithdrawInvestmentDto) (s : State)
        → Step s (withdraw_investment c env id dto s).1
    matures : (env : Env) (s : State) → Step s (process_maturations c env s).1

  pub data Run : State → State → Type 0 where
    done : {s : State} → Run s s
    next : {s t u : State} → Step s t → Run t u → Run s u

  abbrev pub AreFresh : State → Type 0
  AreFresh s = Fresh c.investments.casts s.investments []

  -- What a step has to keep: the ids, and one closed investment.
  abbrev Keeps : State → State → Type 0
  Keeps s t =
      AreFresh t
      × ((id : ℕ) (i : Investment)
          → find? (has_id id) s.investments ≡ some i
          → is_active i.status ≡ false
          → find? (has_id id) t.investments ≡ some i)

  buy-Keeps :
      (env : Env) (dto : BuyInvestmentDto) (s : State) {r : Result BuyResult × State}
      → BuyOutcome c env dto s r
      → AreFresh s
      → Keeps s r.1
  buy-Keeps env dto s (BuyOutcome.refused e) fresh = (fresh, λ id i e closed. e)
  buy-Keeps env dto s (BuyOutcome.bought p e available low high casts new) fresh = (
    Fresh-append c.investments.casts s.investments [] (new_investment env dto p) casts new refl
        fresh,
    λ id i e closed. find?-append_some (has_id id) s.investments (new_investment env dto p ∷ []) e,
  )

  withdraw-Keeps :
      (env : Env) (id : ℕ) (dto : WithdrawInvestmentDto) (s : State)
      {r : Result WithdrawResult × State}
      → WithdrawOutcome c env id dto s r
      → AreFresh s
      → Keeps s r.1
  withdraw-Keeps env id dto s (WithdrawOutcome.refused e) fresh = (fresh, λ id i e closed. e)
  withdraw-Keeps env id dto s (WithdrawOutcome.paid_out w found act) fresh =
      let f =
        set_status InvestmentStatus.withdrawn (returns_of w (product_in s.products w.product_id)) in
      (
        Fresh-replace c.investments.casts (has_id id) f s.investments [] (λ x. refl) fresh,
        λ id' i e closed. elim (Bool-cases (id == id')) [
          | inl same ↦
              let both : some w ≡ some i =
                sym found
                ∙ subst (λ n. find? (has_id n) s.investments ≡ some i) (sym (eq_of_== id id' same))
                    e in
              let contra : true ≡ false =
                sym act
                ∙ ap (λ o. elim o [ none ↦ true | some x ↦ is_active x.status ]) both
                ∙ closed in
              cc
          | inr other ↦
              find?-replace_other (has_id id) (has_id id') f s.investments (λ x h. ground arith)
                (λ x h. ground arith)
              ∙ e
        ],
      )

  matures-Keeps : (env : Env) (s : State) → AreFresh s → Keeps s (process_maturations c env s).1
  matures-Keeps env s fresh = rw (process_maturations-settled c env s fresh) (
    Fresh-map c.investments.casts (settled s.products env.now) s.investments []
        (settled_id s.products env.now) fresh,
    λ id i e closed.
        find?-map (has_id id) (settled s.products env.now) s.investments
          (λ x. ap (λ n. n == id) (settled_id s.products env.now x))
        ∙ ap (Option.map (settled s.products env.now)) e
        ∙ ap some (settled_closed s.products env.now i closed),
  )

  Step-Keeps : {s t : State} → Step s t → AreFresh s → Keeps s t
  Step-Keeps (Step.buys env dto s) = buy-Keeps env dto s (buy_investment-BuyOutcome c env dto s)
  Step-Keeps (Step.withdraws env id dto s) =
      withdraw-Keeps env id dto s (withdraw_investment-WithdrawOutcome c env id dto s)
  Step-Keeps (Step.matures env s) = matures-Keeps env s

  -- In every sequence of purchases, withdrawals and maturations, the ids of the investments keep
  -- casting and differing, whether the calls return or throw.
  pub Run-AreFresh : {s t : State} → Run s t → AreFresh s → AreFresh t
  Run-AreFresh Run.done fresh = fresh
  Run-AreFresh (Run.next step run) fresh = Run-AreFresh run (Step-Keeps step fresh).0

  -- In every sequence of purchases, withdrawals and maturations from a state where the ids cast and
  -- differ, an investment that is withdrawn or matured stays as it is: its status, its returns and
  -- its other fields.
  pub Run-closed :
      {s t : State}
      → Run s t
      → AreFresh s
      → (id : ℕ) (i : Investment) → find? (has_id id) s.investments ≡ some i
      → is_active i.status ≡ false
      → find? (has_id id) t.investments ≡ some i
  Run-closed Run.done fresh id i e closed = e
  Run-closed (Run.next step run) fresh id i e closed =
      let keeps = Step-Keeps step fresh in
      Run-closed run keeps.0 id i (keeps.1 id i e closed) closed
