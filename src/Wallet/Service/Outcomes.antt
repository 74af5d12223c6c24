-- ===== src/Wallet/Service/Outcomes.antt =====
-- wallet.service.ts, `transfer` and `topUp`: the ways in which a run can end.
use nexapay_fintech_super_ap.Common.{
  ◌&&◌, if◌then◌else◌, le→not-ltb, ne→not-==, any, ◌+◌, ◌-◌, ◌≤◌, ◌≡◌, ◌≢◌, ◌∙◌, refl, sym, ap,
  Bool, true, false, inl, inr, none, some, ◌==◌, ltb, arith, Bool-cases, Option-cases,
}
use nexapay_fintech_super_ap.Common.Rows.{find?}
use nexapay_fintech_super_ap.Common.Action.{
  Result, ok, err, continue, pure, first_error, cache_unavailable, Exception, version_conflict,
  bad_request, not_found, conflict,
}
use nexapay_fintech_super_ap.Wallet.Entities.{
  Wallet, Transaction, TransferDto, TopUpDto, Topic, Env, Clients, State,
}
use nexapay_fintech_super_ap.Wallet.Repository.{
  transfer_logs, has_id, has_key, owned_by, transfer_transaction, top_up_transaction,
}
use nexapay_fintech_super_ap.Wallet.Repository.Calls.{
  LogsFresh, clashes, find_wallet_lem, find_wallet_by_id_lem, find_by_idempotency_key_lem,
  is_refusal,
}
use nexapay_fintech_super_ap.Wallet.Repository.Writes.{found_again, found_id}
use nexapay_fintech_super_ap.Wallet.Repository.Transfer.{
  execute_transfer-ok, transferred, execute_transfer-TransferSettles,
}
use nexapay_fintech_super_ap.Wallet.Repository.TopUp.{topped_up, execute_top_up-TopUpSettles}
use nexapay_fintech_super_ap.Wallet.Service.{
  cache_with, map_transaction, emitted, transfer_event, top_up_event, rethrow, emit_kafka_event,
  cache_balance, new_top_up, top_up, settle_transfer, new_transfer, transfer,
}

-- What a run does not throw while it has changed nothing: a conflict, which it never throws, and
-- the refusal of the cache, which comes after the change.
abbrev pub is_late : Exception → Bool
is_late version_conflict = true
is_late cache_unavailable = true
is_late conflict = true
is_late _ = false

refusal-early : (e : Exception) → is_refusal e ≡ true → is_late (rethrow e) ≡ false
refusal-early e h = ground arith

refusal-early' : (e : Exception) → is_refusal e ≡ true → is_late e ≡ false
refusal-early' e h = ground arith

-- The answer after the database has taken the movement: the throw of a refused cache write comes
-- after it.
abbrev pub answered : Bool → Transaction → Result Transaction
answered true tx = ok tx
answered false tx = err cache_unavailable

pub answered-ok : (taken : Bool) (tx tx' : Transaction) → answered taken tx ≡ ok tx' → tx ≡ tx'
answered-ok true tx tx' e = cc
answered-ok false tx tx' e = cc

one_write :
    {S : Type 0} (taken : Bool) (tx : Transaction) (s : S)
    → continue
        (first_error (if taken then ok tt else err cache_unavailable) (ok (tt {0})), s)
        (λ _. pure tx)
      ≡ (answered taken tx, s)
one_write true tx s = refl
one_write false tx s = refl

two_writes :
    {S : Type 0} (first second : Bool) (tx : Transaction) (s : S)
    → continue
        (
          first_error
              (if first then ok tt else err cache_unavailable)
              (first_error (if second then ok tt else err cache_unavailable) (ok (tt {0}))),
          s,
        )
        (λ _. pure tx)
      ≡ (answered (first && second) tx, s)
two_writes true true tx s = refl
two_writes true false tx s = refl
two_writes false second tx s = refl

module _ {C : Type 0} (c : Clients C) (env : Env) (dto : TransferDto) where
  abbrev pub moved : Wallet → Wallet → Transaction
  moved f t =
      transfer_transaction env f t dto.amount dto.currency dto.idempotency_key dto.description

  -- The state after a transfer between the rows `f` and `t`.
  abbrev pub after_transfer : Wallet → Wallet → State C → State C
  after_transfer f t s = record {
    db = transferred env f t dto.amount dto.currency dto.idempotency_key dto.description f s.db;
    cache =
        cache_with c env t.id (t.balance + dto.amount)
          (cache_with c env f.id (f.balance - dto.amount) s.cache);
    events =
        emitted env (transfer_event env dto Topic.credited t f env.uuid)
          (emitted env (transfer_event env dto Topic.debited f t env.uuid) s.events);
  }

  -- Whether Redis takes both balances.
  abbrev pub both_cached : Wallet → Wallet → Bool
  both_cached f t = env.cache_writes f.id && env.cache_writes t.id

  -- It throws and changes nothing, and never a conflict; it replays the transaction that has
  -- its key; or it moves the amount, and then throws if Redis does not take the balances.
  pub data TransferOutcome (s : State C) : Result Transaction × State C → Type 0 where
    thrown : (e : Exception) → is_late e ≡ false → TransferOutcome s (err e, s)
    replayed :
        (tx : Transaction)
        → dto.from_wallet_id ≢ dto.to_wallet_id
        → find? (has_key dto.idempotency_key) s.db.transactions ≡ some tx
        → TransferOutcome s (ok tx, s)
    moves :
        (f t : Wallet)
        → find? (has_key dto.idempotency_key) s.db.transactions ≡ none
        → dto.from_wallet_id ≢ dto.to_wallet_id
        → find? (has_id dto.from_wallet_id) s.db.wallets ≡ some f
        → find? (has_id dto.to_wallet_id) s.db.wallets ≡ some t
        → dto.amount ≤ f.balance
        → TransferOutcome s (answered (both_cached f t) (moved f t), after_transfer f t s)

  settle_transfer-TransferOutcome :
      (s : State C) (f t : Wallet)
      → find? (has_key dto.idempotency_key) s.db.transactions ≡ none
      → dto.from_wallet_id ≢ dto.to_wallet_id
      → find? (has_id dto.from_wallet_id) s.db.wallets ≡ some f
      → find? (has_id dto.to_wallet_id) s.db.wallets ≡ some t
      → dto.amount ≤ f.balance
      → TransferOutcome s (settle_transfer c env dto f t s)
  unfolding settle_transfer cache_balance emit_kafka_event map_transaction
  settle_transfer-TransferOutcome s f t free ne ef et h =
      elim (execute_transfer-TransferSettles c env f t dto.amount dto.currency dto.idempotency_key
        dto.description
        (λ e. ne (
          sym (found_id dto.from_wallet_id s.db.wallets ef)
          ∙ e
          ∙ found_id dto.to_wallet_id s.db.wallets et))
        s.db) [
          | inl (e, ne', eq) ↦ rw eq (thrown (rethrow e) (refusal-early e ne'))
          | inr (f', t', ef', et', h', eq) ↦ rw eq (
              rw (same f' ef') (
                rw
                  (two_writes (env.cache_writes f.id) (env.cache_writes t.id) (moved f t)
                    (after_transfer f t s))
                  (moves f t free ne ef et h)))
        ]
    where
      same : (f' : Wallet) → find? (has_id f.id) s.db.wallets ≡ some f' → f' ≡ f
      same f' e =
          cc (ap (λ i. find? (has_id i) s.db.wallets) (found_id dto.from_wallet_id s.db.wallets ef))

  new_transfer-TransferOutcome :
      (s : State C)
      → find? (has_key dto.idempotency_key) s.db.transactions ≡ none
      → dto.from_wallet_id ≢ dto.to_wallet_id
      → TransferOutcome s (new_transfer c env dto s)
  unfolding new_transfer
  new_transfer-TransferOutcome s free ne =
      rw (find_wallet_by_id_lem c dto.from_wallet_id s.db)
        (elim (Option-cases (find? (has_id dto.from_wallet_id) s.db.wallets)) [
          | inl missing ↦ rw missing (thrown not_found refl)
          | inr (f, ef) ↦ rw ef (
              rw (find_wallet_by_id_lem c dto.to_wallet_id s.db)
                (elim (Option-cases (find? (has_id dto.to_wallet_id) s.db.wallets)) [
                  | inl missing ↦ rw missing (thrown not_found refl)
                  | inr (t, et) ↦ rw et (elim (Bool-cases (ltb f.balance dto.amount)) [
                    | inl short ↦ rw short (thrown bad_request refl)
                    | inr enough ↦
                        rw enough
                          (settle_transfer-TransferOutcome s f t free ne ef et (ground arith))
                  ])
                ]))
        ])

  -- Every run of `transfer` ends in one of three ways: it throws and changes nothing; it returns the
  -- stored transaction of a known key and changes nothing; or, with a new key, it moves the amount
  -- between two different wallets, the first of which covers it, and then returns if Redis takes
  -- both balances, and throws if not, with the amount moved all the same.
  pub transfer-TransferOutcome : (s : State C) → TransferOutcome s (transfer c env dto s)
  unfolding transfer map_transaction
  transfer-TransferOutcome s = elim (Bool-cases (dto.from_wallet_id == dto.to_wallet_id)) [
    | inl same ↦ rw same (thrown bad_request refl)
    | inr different ↦ rw different (
        rw (find_by_idempotency_key_lem c dto.idempotency_key s.db)
          (elim (Option-cases (find? (has_key dto.idempotency_key) s.db.transactions)) [
            | inl free ↦ rw free (new_transfer-TransferOutcome s free (ground arith))
            | inr (tx, e) ↦ rw e (replayed tx (ground arith) e)
          ]))
  ]

  -- A known key replays its transaction, whatever else the request says.
  pub transfer-replay :
      (s : State C) (tx : Transaction)
      → dto.from_wallet_id ≢ dto.to_wallet_id
      → find? (has_key dto.idempotency_key) s.db.transactions ≡ some tx
      → transfer c env dto s ≡ (ok tx, s)
  unfolding transfer map_transaction
  transfer-replay s tx ne known =
      rw (ne→not-== dto.from_wallet_id dto.to_wallet_id ne)
        (rw (find_by_idempotency_key_lem c dto.idempotency_key s.db) (rw known))

  -- A new transfer that is covered, with fresh ids for its rows, goes through, and returns if Redis
  -- takes both balances.
  pub transfer-ok :
      (s : State C) (f t : Wallet)
      → dto.from_wallet_id ≢ dto.to_wallet_id
      → find? (has_id dto.from_wallet_id) s.db.wallets ≡ some f
      → find? (has_id dto.to_wallet_id) s.db.wallets ≡ some t
      → dto.amount ≤ f.balance
      → find? (has_key dto.idempotency_key) s.db.transactions ≡ none
      → any (clashes (moved f t)) s.db.transactions ≡ false
      → LogsFresh
          (transfer_logs env f.id t.id f.balance t.balance dto.amount dto.idempotency_key)
          s.db.logs
      → transfer c env dto s ≡ (answered (both_cached f t) (moved f t), after_transfer f t s)
  unfolding transfer new_transfer settle_transfer cache_balance emit_kafka_event map_transaction
  transfer-ok s f t ne ef et h free unique fresh =
      rw (ne→not-== dto.from_wallet_id dto.to_wallet_id ne) (
        rw (find_by_idempotency_key_lem c dto.idempotency_key s.db) (
          rw free (
            rw (find_wallet_by_id_lem c dto.from_wallet_id s.db) (
              rw ef (
                rw (find_wallet_by_id_lem c dto.to_wallet_id s.db) (
                  rw et (
                    rw (le→not-ltb f.balance dto.amount h) (
                      rw
                        (execute_transfer-ok c env f t dto.amount dto.currency dto.idempotency_key
                          dto.description
                          (λ e. ne (
                            sym (found_id dto.from_wallet_id s.db.wallets ef)
                            ∙ e
                            ∙ found_id dto.to_wallet_id s.db.wallets et))
                          s.db f t (found_again dto.from_wallet_id s.db.wallets ef)
                          (found_again dto.to_wallet_id s.db.wallets et) h unique fresh)
                        (two_writes (env.cache_writes f.id) (env.cache_writes t.id) (moved f t)
                          (after_transfer f t s))))))))))

module _ {C : Type 0} (c : Clients C) (env : Env) (dto : TopUpDto) where
  abbrev pub deposited : Wallet → Transaction
  deposited w =
      top_up_transaction env w.id dto.amount dto.currency dto.idempotency_key dto.description

  -- The state after a top-up of the wallet that was found as `w`, and read again as `fresh`.
  abbrev pub after_top_up : Wallet → Wallet → State C → State C
  after_top_up w fresh s = record {
    db = topped_up env w.id dto.amount dto.currency dto.idempotency_key dto.description fresh s.db;
    cache = cache_with c env w.id (w.balance + dto.amount) s.cache;
    events = emitted env (top_up_event env dto w env.uuid) s.events;
  }

  -- It throws and changes nothing, and never a conflict; it replays the transaction that has its
  -- key; or it deposits the amount, and then throws if Redis does not take the balance.
  pub data TopUpOutcome (s : State C) : Result Transaction × State C → Type 0 where
    thrown : (e : Exception) → is_late e ≡ false → TopUpOutcome s (err e, s)
    replayed :
        (tx : Transaction)
        → find? (has_key dto.idempotency_key) s.db.transactions ≡ some tx
        → TopUpOutcome s (ok tx, s)
    deposits :
        (w fresh : Wallet)
        → find? (has_key dto.idempotency_key) s.db.transactions ≡ none
        → find? (owned_by dto.user_id dto.currency) s.db.wallets ≡ some w
        → find? (has_id w.id) s.db.wallets ≡ some fresh
        → TopUpOutcome s (answered (env.cache_writes w.id) (deposited w), after_top_up w fresh s)

  new_top_up-TopUpOutcome :
      (s : State C) (w : Wallet)
      → find? (has_key dto.idempotency_key) s.db.transactions ≡ none
      → find? (owned_by dto.user_id dto.currency) s.db.wallets ≡ some w
      → TopUpOutcome s (new_top_up c env dto w s)
  unfolding new_top_up cache_balance emit_kafka_event map_transaction
  new_top_up-TopUpOutcome s w free ew =
      elim (execute_top_up-TopUpSettles c env w.id dto.amount dto.currency dto.idempotency_key
        dto.description s.db) [
          | inl (e, refused, eq) ↦ rw eq (thrown e (refusal-early' e refused))
          | inr (fresh, ef, eq) ↦ rw eq (
              rw (one_write (env.cache_writes w.id) (deposited w) (after_top_up w fresh s))
                (deposits w fresh free ew ef))
        ]

  -- Every run of `topUp` ends in one of the three ways.
  pub top_up-TopUpOutcome : (s : State C) → TopUpOutcome s (top_up c env dto s)
  unfolding top_up map_transaction
  top_up-TopUpOutcome s =
      rw (find_wallet_lem c dto.user_id dto.currency s.db)
        (elim (Option-cases (find? (owned_by dto.user_id dto.currency) s.db.wallets)) [
          | inl missing ↦ rw missing (thrown not_found refl)
          | inr (w, ew) ↦ rw ew (
              rw (find_by_idempotency_key_lem c dto.idempotency_key s.db)
                (elim (Option-cases (find? (has_key dto.idempotency_key) s.db.transactions)) [
                  | inl free ↦ rw free (new_top_up-TopUpOutcome s w free ew)
                  | inr (tx, e) ↦ rw e (replayed tx e)
                ]))
        ])
