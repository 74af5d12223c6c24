-- ===== src/Investment/Service/Maturations.antt =====
-- investment.service.ts, `processMaturations`: what a run leaves of every investment.
use nexapay_fintech_super_ap.Common.{
  ℕ, ◌≡◌, refl, sym, ap, subst, ◌∙◌, Bool, true, false, ◌||◌, List, [], ◌∷◌, ◌++◌, ◌==◌, any,
  filter, map, if◌then◌else◌, Bool-cases, inl, inr, ==_refl, arith,
}
use mathlib.Core.List.{append_assoc, map-append}
use nexapay_fintech_super_ap.Common.Rows.{replace}
use nexapay_fintech_super_ap.Common.Action.{ok}
use nexapay_fintech_super_ap.Investment.Entities.{
  ProductRow, InvestmentStatus, Investment, Event, State, Clients, Env,
}
use nexapay_fintech_super_ap.Investment.Valuation.{returns_of}
use nexapay_fintech_super_ap.Investment.Repository.{has_id, is_due, set_status}
use nexapay_fintech_super_ap.Investment.Repository.Calls.{
  product_in, find_product_by_id_lem, find_matured_active_investments_lem,
  update_investment_status_lem,
}
use nexapay_fintech_super_ap.Investment.Service.{emitted, mature, process_maturations}

-- The ids cast, differ from one another, and are not among the given ones.
abbrev pub Fresh : (ℕ → Bool) → List Investment → List ℕ → Type 0
Fresh casts [] ids = Unit
Fresh casts (i ∷ is) ids =
    (casts i.id ≡ true) × (any (λ x. x == i.id) ids ≡ false) × Fresh casts is (ids ++ i.id ∷ [])

abbrev pub ids_of : List Investment → List ℕ
ids_of = map (λ i. i.id)

-- An investment after its maturation.
abbrev pub matured_by : List ProductRow → Investment → Investment
matured_by products i =
    set_status InvestmentStatus.matured (returns_of i (product_in products i.product_id)) i

abbrev pub settled : List ProductRow → ℕ → Investment → Investment
settled products now i = if is_due now i then matured_by products i else i

any-has_id : (id : ℕ) (is : List Investment) → any (has_id id) is ≡ any (λ x. x == id) (ids_of is)
any-has_id id [] = refl
any-has_id id (i ∷ is) = ap (λ b. (i.id == id) || b) (any-has_id id is)

replace-behind :
    (id : ℕ) (f : Investment → Investment) (before : List Investment) (i : Investment)
    (after : List Investment)
    → any (has_id id) before ≡ false
    → (i.id == id) ≡ true
    → replace (has_id id) f (before ++ i ∷ after) ≡ before ++ f i ∷ after
replace-behind id f [] i after e h = rw h refl
replace-behind id f (b ∷ before) i after e h = ground (arith, replace-behind id f before i after)

module _ (c : Clients) (env : Env) where
  -- What is sent for the investments that are due.
  abbrev pub maturity_events : List ProductRow → List Investment → List Event → List Event
  maturity_events products [] events = events
  maturity_events products (i ∷ is) events = maturity_events products is (
      emitted env
        (Event.matured i.id i.user_id i.product_id i.amount
          (returns_of i (product_in products i.product_id)))
        events)

  ids-append :
      (before : List Investment) (i j : Investment)
      → i.id ≡ j.id
      → ids_of (before ++ i ∷ []) ≡ ids_of before ++ j.id ∷ []
  ids-append before i j e =
      map-append (λ x. x.id) before (i ∷ []) ∙ ap (λ n. ids_of before ++ n ∷ []) e

  -- The loop on the investments that are due among the last ones.
  mature_lem :
      (before rest : List Investment) (s : State)
      → Fresh c.investments.casts rest (ids_of before)
      → mature c env (filter (is_due env.now) rest) (record s { investments = before ++ rest }) ≡ (
        ok tt,
        record s {
          investments = before ++ map (settled s.products env.now) rest;
          events = maturity_events s.products (filter (is_due env.now) rest) s.events;
        },
      )
  unfolding mature
  mature_lem before [] s fresh = refl
  mature_lem before (i ∷ rest) s (casts, new, fresh) =
      let f = settled s.products env.now in
      -- The rest of the loop, when `i` has become `j`.
      let next : (j : Investment) (events : List Event)
          → j.id ≡ i.id
          → mature c env (filter (is_due env.now) rest)
              (record s { investments = before ++ j ∷ rest; events = events })
            ≡ (
              ok tt,
              record s {
                investments = before ++ j ∷ map f rest;
                events = maturity_events s.products (filter (is_due env.now) rest) events;
              },
            ) =
        λ j events same.
          rw
            (
              sym (append_assoc before (j ∷ []) rest),
              sym (append_assoc before (j ∷ []) (map f rest)),
            )
            (mature_lem (before ++ j ∷ []) rest (record s { events = events })
              (subst (Fresh c.investments.casts rest) (sym (ids-append before j i same)) fresh)) in
      elim (Bool-cases (is_due env.now i)) [
        | inl due ↦
            let returns = returns_of i (product_in s.products i.product_id) in
            let s' : State = record s { investments = before ++ i ∷ rest } in
            rw due (
              rw (find_product_by_id_lem c i.product_id s') (
                rw (update_investment_status_lem c i.id InvestmentStatus.matured returns s' casts) (
                  rw
                    (replace-behind i.id (set_status InvestmentStatus.matured returns) before i rest
                      (any-has_id i.id before ∙ new) (==_refl i.id))
                    (next (matured_by s.products i)
                      (emitted env (Event.matured i.id i.user_id i.product_id i.amount returns)
                        s.events)
                      refl))))
        | inr later ↦ rw later (next i s.events refl)
      ]

  -- A run of the maturations succeeds, and turns exactly the active investments that are due into
  -- matured ones, each with the returns of its own product, where the ids of the investments cast
  -- and differ; every other investment stays as it is.
  pub process_maturations-settled :
      (s : State)
      → Fresh c.investments.casts s.investments []
      → process_maturations c env s ≡ (
        ok tt,
        record s {
          investments = map (settled s.products env.now) s.investments;
          events = maturity_events s.products (filter (is_due env.now) s.investments) s.events;
        },
      )
  unfolding process_maturations
  process_maturations-settled s fresh =
      rw (find_matured_active_investments_lem c env s) (mature_lem [] s.investments s fresh)
