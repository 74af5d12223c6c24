-- ===== src/Users/Profiles.antt =====
-- user.service.ts: which columns the changes of a profile reach.
use nexapay_fintech_super_ap.Common.{ℕ, ◌≡◌, refl, some}
use nexapay_fintech_super_ap.Common.Rows.{find?, replace}
use nexapay_fintech_super_ap.Common.Action.{ok}
use nexapay_fintech_super_ap.Users.{
  User, UpdateProfileDto, UserChange, State, Clients, Env, has_id, changed, no_change, find_by_id,
  update, update_profile,
}

module _ (c : Clients) where
  find_by_id_lem : (id : ℕ) (s : State) → find_by_id c id s ≡ (ok (find? (has_id id) s.users), s)
  unfolding find_by_id
  find_by_id_lem id s = rw (c.users.find_unique_lem (has_id id) s.users) refl

  update_lem :
      (env : Env) (id : ℕ) (change : UserChange) (s : State) {u : User}
      → find? (has_id id) s.users ≡ some u
      → update c env id change s ≡ (
        ok (changed env.now change u),
        record s { users = replace (has_id id) (changed env.now change) s.users },
      )
  unfolding update
  update_lem env id change s e =
      rw (c.users.update_some (has_id id) (changed env.now change) s.users e) refl

  -- A change of the profile of a stored user returns the user with the given columns and the old
  -- e-mail address, role, status and avatar, and writes that one row.
  pub update_profile_lem :
      (env : Env) (id : ℕ) (dto : UpdateProfileDto) (s : State) {u : User}
      → find? (has_id id) s.users ≡ some u
      → (v : User) × (update_profile c env id dto s ≡ (
        ok v,
        record s {
          users =
              replace
                (has_id id)
                (λ x.
                  changed env.now
                    (record no_change {
                      first_name = dto.first_name;
                      last_name = dto.last_name;
                      phone = dto.phone;
                    })
                    x)
                s.users;
        },
      ))
        × (v.email ≡ u.email)
        × (v.role ≡ u.role)
        × (v.status ≡ u.status)
        × (v.avatar_url ≡ u.avatar_url)
  unfolding update_profile
  update_profile_lem env id dto s {u} e =
      let change : UserChange = record no_change {
        first_name = dto.first_name;
        last_name = dto.last_name;
        phone = dto.phone;
      } in
      (
        changed env.now change u,
        rw (find_by_id_lem id s) (rw e (rw (update_lem env id change s e) refl)),
        refl,
        refl,
        refl,
        refl,
      )
