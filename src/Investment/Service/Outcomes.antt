-- ===== src/Investment/Service/Outcomes.antt =====
-- investment.service.ts, `buyInvestment` and `withdrawInvestment`: the ways in which a run can end.
use nexapay_fintech_super_ap.Common.{
  ℕ, ◌≤◌, ◌≡◌, refl, true, false, Option, some, [], ◌∷◌, ◌++◌, ltb, any, arith, Bool-cases,
  Option-cases, inl, inr,
}
use nexapay_fintech_super_ap.Common.Rows.{find?, replace}
use nexapay_fintech_super_ap.Common.Action.{
  Result, ok, err, Exception, not_found, bad_request, cast_failed, validation_failed,
}
use nexapay_fintech_super_ap.Investment.Entities.{
  ProductEntity, InvestmentStatus, Investment, BuyInvestmentDto, WithdrawInvestmentDto, BuyResult,
  WithdrawResult, Event, State, Clients, Env, is_available, is_active,
}
use nexapay_fintech_super_ap.Investment.Valuation.{returns_of, calculate_units}
use nexapay_fintech_super_ap.Investment.Repository.{has_id, set_status}
use nexapay_fintech_super_ap.Investment.Repository.Calls.{
  product_in, find_product_by_id_lem, find_investment_by_id_lem, find_investment_by_id_uncast,
  create_investment_fresh, create_investment_taken, create_investment_uncast,
  update_investment_status_lem,
}
use nexapay_fintech_super_ap.Investment.Service.{
  emitted, new_investment, buy_investment, withdraw_investment,
}

module _ (c : Clients) (env : Env) (dto : BuyInvestmentDto) where
  abbrev pub buy_result : ProductEntity → BuyResult
  buy_result p = record {
    id = env.uuid;
    user_id = dto.user_id;
    product_id = dto.product_id;
    amount = dto.amount;
    units = calculate_units dto.amount p;
    status = InvestmentStatus.active;
  }

  abbrev pub after_buy : ProductEntity → State → State
  after_buy p s = record s {
    investments = s.investments ++ new_investment env dto p ∷ [];
    events =
        emitted env
          (Event.purchased env.uuid dto.user_id dto.product_id dto.amount
            (calculate_units dto.amount p))
          s.events;
  }

  -- It throws and changes nothing, or it adds an investment in an available product, with an
  -- amount in the range of the product.
  pub data BuyOutcome (s : State) : Result BuyResult × State → Type 0 where
    refused : (e : Exception) → BuyOutcome s (err e, s)
    bought :
        (p : ProductEntity)
        → product_in s.products dto.product_id ≡ some p
        → is_available p.status ≡ true
        → p.min_investment ≤ dto.amount
        → dto.amount ≤ p.max_investment
        → c.investments.casts env.uuid ≡ true
        → any (has_id env.uuid) s.investments ≡ false
        → BuyOutcome s (ok (buy_result p), after_buy p s)

  pub buy_investment-bought :
      (s : State) (p : ProductEntity)
      → product_in s.products dto.product_id ≡ some p
      → is_available p.status ≡ true
      → ltb dto.amount p.min_investment ≡ false
      → ltb p.max_investment dto.amount ≡ false
      → c.investments.casts env.uuid ≡ true
      → any (has_id env.uuid) s.investments ≡ false
      → buy_investment c env dto s ≡ (ok (buy_result p), after_buy p s)
  unfolding buy_investment
  buy_investment-bought s p e available low high casts fresh =
      rw (find_product_by_id_lem c dto.product_id s) (
        rw e (
          rw available (
            rw (low, high)
              (rw (create_investment_fresh c (new_investment env dto p) s casts fresh) refl))))

  -- The part after the checks.
  buy_investment-accepted :
      (s : State) (p : ProductEntity)
      → product_in s.products dto.product_id ≡ some p
      → is_available p.status ≡ true
      → ltb dto.amount p.min_investment ≡ false
      → ltb p.max_investment dto.amount ≡ false
      → BuyOutcome s (buy_investment c env dto s)
  unfolding buy_investment
  buy_investment-accepted s p e available low high =
      let i = new_investment env dto p in
      rw (find_product_by_id_lem c dto.product_id s) (
        rw e (
          rw available (
            rw (low, high)
              (elim (Bool-cases (c.investments.casts env.uuid)) [
                | inr closed ↦
                    rw (create_investment_uncast c i s closed) (refused validation_failed)
                | inl casts ↦ elim (Bool-cases (any (has_id env.uuid) s.investments)) [
                  | inl taken ↦ rw (create_investment_taken c i s taken) (refused validation_failed)
                  | inr fresh ↦
                      rw (create_investment_fresh c i s casts fresh)
                        (bought p e available (ground arith) (ground arith) casts fresh)
                ]
              ]))))

  pub buy_investment-BuyOutcome : (s : State) → BuyOutcome s (buy_investment c env dto s)
  unfolding buy_investment
  buy_investment-BuyOutcome s = elim (Option-cases (product_in s.products dto.product_id)) [
    | inl e ↦ rw (find_product_by_id_lem c dto.product_id s) (rw e (refused not_found))
    | inr (p, e) ↦ elim (Bool-cases (is_available p.status)) [
      | inr closed ↦
          rw (find_product_by_id_lem c dto.product_id s) (rw e (rw closed (refused bad_request)))
      | inl available ↦ elim (Bool-cases (ltb dto.amount p.min_investment)) [
        | inl low ↦
            rw (find_product_by_id_lem c dto.product_id s)
              (rw e (rw available (rw low (refused bad_request))))
        | inr low ↦ elim (Bool-cases (ltb p.max_investment dto.amount)) [
          | inl high ↦
              rw (find_product_by_id_lem c dto.product_id s)
                (rw e (rw available (rw (low, high) (refused bad_request))))
          | inr high ↦ buy_investment-accepted s p e available low high
        ]
      ]
    ]
  ]

module _ (c : Clients) (env : Env) (id : ℕ) (dto : WithdrawInvestmentDto) where
  abbrev pub withdraw_result : Investment → Option ProductEntity → WithdrawResult
  withdraw_result i product = record {
    id = id;
    status = InvestmentStatus.withdrawn;
    returns = returns_of i product;
    message = "Investment withdrawn successfully";
  }

  abbrev pub after_withdraw : Investment → Option ProductEntity → State → State
  after_withdraw i product s = record s {
    investments =
        replace (has_id id) (set_status InvestmentStatus.withdrawn (returns_of i product))
          s.investments;
    events =
        emitted env
          (Event.withdrawn id dto.user_id i.product_id i.amount (returns_of i product) dto.reason)
          s.events;
  }

  pub data WithdrawOutcome (s : State) : Result WithdrawResult × State → Type 0 where
    refused : (e : Exception) → WithdrawOutcome s (err e, s)
    paid_out :
        (i : Investment)
        → find? (has_id id) s.investments ≡ some i
        → is_active i.status ≡ true
        → WithdrawOutcome s (
          ok (withdraw_result i (product_in s.products i.product_id)),
          after_withdraw i (product_in s.products i.product_id) s,
        )

  pub withdraw_investment-active :
      (s : State) (i : Investment)
      → c.investments.casts id ≡ true
      → find? (has_id id) s.investments ≡ some i
      → is_active i.status ≡ true
      → withdraw_investment c env id dto s ≡ (
        ok (withdraw_result i (product_in s.products i.product_id)),
        after_withdraw i (product_in s.products i.product_id) s,
      )
  unfolding withdraw_investment
  withdraw_investment-active s i casts e act =
      let returns = returns_of i (product_in s.products i.product_id) in
      rw (find_investment_by_id_lem c id s casts) (
        rw e (
          rw act (
            rw (find_product_by_id_lem c i.product_id s) (
              rw (update_investment_status_lem c id InvestmentStatus.withdrawn returns s casts)
                refl))))

  pub withdraw_investment-WithdrawOutcome :
      (s : State) → WithdrawOutcome s (withdraw_investment c env id dto s)
  unfolding withdraw_investment
  withdraw_investment-WithdrawOutcome s = elim (Bool-cases (c.investments.casts id)) [
    | inr closed ↦ rw (find_investment_by_id_uncast c id s closed) (refused cast_failed)
    | inl casts ↦ elim (Option-cases (find? (has_id id) s.investments)) [
      | inl e ↦ rw (find_investment_by_id_lem c id s casts) (rw e (refused not_found))
      | inr (i, e) ↦ elim (Bool-cases (is_active i.status)) [
        | inr closed ↦
            rw (find_investment_by_id_lem c id s casts) (rw e (rw closed (refused bad_request)))
        | inl act ↦ rw (withdraw_investment-active s i casts e act) (paid_out i e act)
      ]
    ]
  ]
