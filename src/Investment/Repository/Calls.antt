-- ===== src/Investment/Repository/Calls.antt =====
-- investment.repository.ts: what the calls return, as equations.
use nexapay_fintech_super_ap.Common.{
  inr, inl, Bool-cases, ℕ, ◌≡◌, refl, true, false, Option, List, [], ◌∷◌, ◌++◌, any, filter,
}
use mathlib.Core.Option
use nexapay_fintech_super_ap.Common.Int.{ℤ}
use nexapay_fintech_super_ap.Common.Rows.{find?, replace}
use nexapay_fintech_super_ap.Common.Action.{ok, err, cast_failed, validation_failed}
use nexapay_fintech_super_ap.Investment.Entities.{
  ProductEntity, ProductRow, InvestmentStatus, Investment, State, Clients, Env,
}
use nexapay_fintech_super_ap.Investment.Repository.{
  has_product, has_id, of_user, is_due, set_status, find_product_by_id, create_investment,
  find_investments_by_user_id, find_investment_by_id, update_investment_status,
  find_matured_active_investments,
}

abbrev pub product_in : List ProductRow → ℕ → Option ProductEntity
product_in rows id = Option.map (λ p. p.entity) (find? (has_product id) rows)

module _ (c : Clients) where
  pub find_product_by_id_lem :
      (id : ℕ) (s : State) → find_product_by_id c id s ≡ (ok (product_in s.products id), s)
  unfolding find_product_by_id
  find_product_by_id_lem id s = rw (c.products.find_unique_lem (has_product id) s.products)

  pub find_investments_by_user_id_lem :
      (user_id : ℕ) (s : State)
      → find_investments_by_user_id c user_id s ≡ (ok (filter (of_user user_id) s.investments), s)
  unfolding find_investments_by_user_id
  find_investments_by_user_id_lem user_id s =
      rw (c.investments.find_lem (of_user user_id) s.investments)

  pub find_matured_active_investments_lem :
      (env : Env) (s : State)
      → find_matured_active_investments c env s ≡ (ok (filter (is_due env.now) s.investments), s)
  unfolding find_matured_active_investments
  find_matured_active_investments_lem env s =
      rw (c.investments.find_lem (is_due env.now) s.investments)

  pub find_investment_by_id_lem :
      (id : ℕ) (s : State)
      → c.investments.casts id ≡ true
      → find_investment_by_id c id s ≡ (ok (find? (has_id id) s.investments), s)
  unfolding find_investment_by_id
  find_investment_by_id_lem id s e =
      rw (c.investments.find_by_id_lem id (has_id id) s.investments) (rw e)

  pub find_investment_by_id_uncast :
      (id : ℕ) (s : State)
      → c.investments.casts id ≡ false
      → find_investment_by_id c id s ≡ (err cast_failed, s)
  unfolding find_investment_by_id
  find_investment_by_id_uncast id s e =
      rw (c.investments.find_by_id_lem id (has_id id) s.investments) (rw e)

  pub create_investment_fresh :
      (i : Investment) (s : State)
      → c.investments.casts i.id ≡ true
      → any (has_id i.id) s.investments ≡ false
      → create_investment c i s ≡ (ok i, record s { investments = s.investments ++ i ∷ [] })
  unfolding create_investment
  create_investment_fresh i s e f =
      rw (c.investments.save_lem i.id (has_id i.id) i s.investments) (rw e (rw f refl))

  pub create_investment_uncast :
      (i : Investment) (s : State)
      → c.investments.casts i.id ≡ false
      → create_investment c i s ≡ (err validation_failed, s)
  unfolding create_investment
  create_investment_uncast i s e =
      rw (c.investments.save_lem i.id (has_id i.id) i s.investments) (rw e refl)

  pub create_investment_taken :
      (i : Investment) (s : State)
      → any (has_id i.id) s.investments ≡ true
      → create_investment c i s ≡ (err validation_failed, s)
  unfolding create_investment
  create_investment_taken i s f = elim (Bool-cases (c.investments.casts i.id)) [
    | inl e ↦ rw (c.investments.save_lem i.id (has_id i.id) i s.investments) (rw e (rw f refl))
    | inr e ↦ create_investment_uncast i s e
  ]

  pub update_investment_status_lem :
      (id : ℕ) (status : InvestmentStatus) (returns : ℤ) (s : State)
      → c.investments.casts id ≡ true
      → update_investment_status c id status returns s ≡ (
        ok (Option.map (set_status status returns) (find? (has_id id) s.investments)),
        record s { investments = replace (has_id id) (set_status status returns) s.investments },
      )
  unfolding update_investment_status
  update_investment_status_lem id status returns s e =
      rw
        (c.investments.find_by_id_and_update_lem id (has_id id) (set_status status returns)
          s.investments)
        (rw e refl)
