-- ===== src/Notification/Repository/Calls.antt =====
-- notification.repository.ts: what the calls return, as equations.
use nexapay_fintech_super_ap.Common.{ℕ, ◌≡◌, refl, true, [], ◌∷◌, ◌++◌, ◌==◌}
use nexapay_fintech_super_ap.Common.Rows.{find?}
use nexapay_fintech_super_ap.Common.Action.{ok}
use nexapay_fintech_super_ap.Notification.Entities.{CreateNotificationDto, State, Clients, Env}
use nexapay_fintech_super_ap.Notification.Repository.{
  object_id, new_notification, create, get_preferences,
}

module _ {R : Type 0} (c : Clients R) where
  pub get_preferences_lem :
      (user_id : ℕ) (s : State R)
      → c.casts user_id ≡ true
      → get_preferences c user_id s ≡ (ok (find? (λ p. p.user_id == user_id) s.preferences), s)
  unfolding get_preferences object_id
  get_preferences_lem user_id s casts =
      rw casts (rw (c.find_preference_lem (λ p. p.user_id == user_id) s.preferences) refl)

  pub create_lem :
      (env : Env) (dto : CreateNotificationDto) (s : State R)
      → c.casts dto.user_id ≡ true
      → c.accepts (new_notification env dto) ≡ true
      → create c env dto s ≡ (
        ok (new_notification env dto),
        record s { notifications = s.notifications ++ new_notification env dto ∷ [] },
      )
  unfolding create object_id
  create_lem env dto s casts valid =
      rw casts (rw (c.save_lem (new_notification env dto) s.notifications) (rw valid refl))
