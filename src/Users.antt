-- ===== src/Users.antt =====
-- The profiles of the user service (services/user-kyc/src/modules/user): user.service.ts over
-- user.repository.ts. Texts are only stored and compared, and are numbers.
pub mod Profiles
use nexapay_fintech_super_ap.Common.{
  true, ℕ, Bool, ◌||◌, Option, none, some, List, [], ◌∷◌, ◌++◌, ◌==◌, or_else,
}
use nexapay_fintech_super_ap.Common.Int.{pos}
use nexapay_fintech_super_ap.Common.Action.{
  Action, ◌>>=◌, ◌>>◌, pure, gets, modify, or_throw, not_found, bad_request, record_required,
  unique_violation, validation_failed,
}
use nexapay_fintech_super_ap.Common.Clients.{Prisma}

pub data UserStatus : Type 0 where
  active inactive suspended banned : UserStatus

pub data UserRole : Type 0 where
  customer admin compliance super_admin guest : UserRole

pub record User : Type 0 where
  pub id : ℕ
  pub email : ℕ
  pub phone : Option ℕ
  pub first_name : Option ℕ
  pub last_name : Option ℕ
  pub avatar_url : Option ℕ
  pub role : UserRole
  pub status : UserStatus
  pub created_at : ℕ
  pub updated_at : ℕ

pub record UpdateProfileDto : Type 0 where
  pub first_name : Option ℕ
  pub last_name : Option ℕ
  pub phone : Option ℕ

-- The data of an update; `none` is undefined, which leaves a column as it is.
pub record UserChange : Type 0 where
  pub first_name : Option ℕ
  pub last_name : Option ℕ
  pub phone : Option ℕ
  pub avatar_url : Option ℕ
  pub status : Option UserStatus

pub record State : Type 0 where
  pub users : List User
  pub bucket : List (ℕ × ℕ)

-- `resize` is the image library, which throws for what is no image; `url_of` names an object of the
-- bucket of a user with an id that is drawn.
pub record Clients : Type 0 where
  pub users : Prisma User
  pub resize : ℕ → Option ℕ
  pub url_of : ℕ → ℕ → ℕ

pub record Env : Type 0 where
  pub now : ℕ
  pub uuid : ℕ

abbrev pub has_id : ℕ → User → Bool
has_id id u = u.id == id

abbrev pub given : Option ℕ → Option ℕ → Option ℕ
given none old = old
given (some new) old = some new

abbrev pub changed : ℕ → UserChange → User → User
changed now data_ u = record u {
  first_name = given data_.first_name u.first_name;
  last_name = given data_.last_name u.last_name;
  phone = given data_.phone u.phone;
  avatar_url = given data_.avatar_url u.avatar_url;
  status = or_else data_.status u.status;
  updated_at = now;
}

abbrev pub no_change : UserChange
no_change = record {
  first_name = none;
  last_name = none;
  phone = none;
  avatar_url = none;
  status = none;
}

module _ (c : Clients) where
  pub find_by_id : ℕ → Action State (Option User)
  find_by_id id = gets (λ s. c.users.find_unique (has_id id) s.users)

  pub find_by_email : ℕ → Action State (Option User)
  find_by_email email = gets (λ s. c.users.find_unique (λ u. u.email == email) s.users)

  pub create : Env → ℕ → Option ℕ → Option ℕ → Option ℕ → Action State User
  create env email phone first_name last_name = do
    let u : User = record {
      id = env.uuid;
      email = email;
      phone = phone;
      first_name = first_name;
      last_name = last_name;
      avatar_url = none;
      role = UserRole.customer;
      status = UserStatus.active;
      created_at = env.now;
      updated_at = env.now;
    }
    rows ←
        or_throw
          (← gets (λ s. c.users.create (λ x. has_id env.uuid x || x.email == email) u s.users))
          unique_violation
    modify (λ s. record s { users = rows })
    pure u

  pub update : Env → ℕ → UserChange → Action State User
  update env id data_ = do
    (u, rows) ←
        or_throw (← gets (λ s. c.users.update (has_id id) (changed env.now data_) s.users))
          record_required
    modify (λ s. record s { users = rows })
    pure u

  pub find_all : Option ℕ → Option ℕ → Action State (List User)
  find_all skip size = do
    page ← gets (λ s.
        c.users.find_page (λ _. true) (λ u. u.created_at) (pos (or_else skip 0)) (or_else size 20)
          s.users)
    or_throw page validation_failed

  pub get_profile : ℕ → Action State User
  get_profile user_id = do user ← find_by_id user_id; or_throw user not_found

  pub update_profile : Env → ℕ → UpdateProfileDto → Action State User
  update_profile env user_id dto = do
    or_throw (← find_by_id user_id) not_found
    update env user_id (record no_change {
      first_name = dto.first_name;
      last_name = dto.last_name;
      phone = dto.phone;
    })

  -- A file without a buffer is `none`. The object is put into the bucket before the row is written.
  pub upload_avatar : Env → ℕ → Option ℕ → Action State ℕ
  upload_avatar env user_id file = do
    or_throw (← find_by_id user_id) not_found
    buffer ← or_throw file bad_request
    resized ← or_throw (c.resize buffer) validation_failed
    let url = c.url_of user_id env.uuid
    modify (λ s. record s { bucket = s.bucket ++ (url, resized) ∷ [] })
    update env user_id (record no_change { avatar_url = some url })
    pure url

  pub update_user_status : Env → ℕ → UserStatus → Action State User
  update_user_status env user_id status = do
    or_throw (← find_by_id user_id) not_found
    update env user_id (record no_change { status = some status })
