-- ===== src/Notification/Service/Delivery.antt =====
-- notification.service.ts, `processIncoming`: that it returns.
use nexapay_fintech_super_ap.Common.{
  ℕ, ◌≡◌, refl, true, Option, List, [], ◌∷◌, ◌++◌, ◌==◌, Bool-cases, inl, inr,
}
use nexapay_fintech_super_ap.Common.Rows.{find?}
use nexapay_fintech_super_ap.Common.Action.{ok}
use nexapay_fintech_super_ap.Notification.Entities.{
  NotificationChannel, Notification, Preference, IncomingNotification, State, Clients, Env,
}
use nexapay_fintech_super_ap.Notification.Repository.{new_notification}
use nexapay_fintech_super_ap.Notification.Repository.Calls.{get_preferences_lem, create_lem}
use nexapay_fintech_super_ap.Notification.Service.{
  is_suppressed, allowed_channels, to_dto, deliver, deliver_all, counted, process_incoming,
}

deliver_all_returns :
    {R : Type 0} (env : Env) (channels : List NotificationChannel) (n : Notification)
    (data_ : IncomingNotification) (failures : ℕ) (s : State R)
    → (total : ℕ) × (s' : State R) × (deliver_all env channels n data_ failures s ≡ (ok total, s'))
unfolding deliver_all
deliver_all_returns env [] n data_ failures s = (failures, s, refl)
deliver_all_returns env (channel ∷ rest) n data_ failures s =
    let r = deliver env channel n data_ s in
    deliver_all_returns env rest n data_ (counted r.0 failures) r.1

module _ {R : Type 0} (c : Clients R) where
  -- The preferences of a user.
  abbrev pub prefs_in : State R → ℕ → Option Preference
  prefs_in s user_id = find? (λ p. p.user_id == user_id) s.preferences

  -- The document of a notification.
  abbrev pub document : Env → IncomingNotification → State R → Notification
  document env data_ s =
      new_notification env (to_dto data_ (allowed_channels data_ (prefs_in s data_.user_id)))

  pub process_incoming_returns :
      (env : Env) (data_ : IncomingNotification) (s : State R)
      → c.casts data_.user_id ≡ true
      → c.accepts (document env data_ s) ≡ true
      → (s' : State R) × (process_incoming c env data_ s ≡ (ok tt, s'))
  unfolding process_incoming
  process_incoming_returns env data_ s casts valid =
      let prefs = prefs_in s data_.user_id in
      let n = document env data_ s in
      let created : State R = record s { notifications = s.notifications ++ n ∷ [] } in
      let (total, s', delivered) =
        deliver_all_returns env (allowed_channels data_ prefs) n data_ 0 created in
      rw (get_preferences_lem c data_.user_id s casts)
        (elim (Bool-cases (is_suppressed data_ prefs)) [
          | inl e ↦ rw e (s, refl)
          | inr e ↦ rw e (
              rw (create_lem c env (to_dto data_ (allowed_channels data_ prefs)) s casts valid)
                (rw delivered (s', refl)))
        ])
