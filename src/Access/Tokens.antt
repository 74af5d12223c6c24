-- ===== src/Access/Tokens.antt =====
-- auth.repository.ts: the users and refresh tokens of the auth service, whose own methods are not
-- implemented yet. Ids, tokens and texts are numbers.
pub mod Revocation
use nexapay_fintech_super_ap.Common.{
  ℕ, Bool, true, false, not, ◌&&◌, ◌||◌, Option, none, some, List, [], ◌∷◌, ◌++◌, ◌==◌, map,
  if◌then◌else◌,
}
use nexapay_fintech_super_ap.Common.Action.{
  Action, ◌>>=◌, ◌>>◌, pure, gets, modify, or_throw, record_required, unique_violation,
}
use nexapay_fintech_super_ap.Common.Clients.{Prisma}

pub data Role : Type 0 where
  user admin : Role
  other : ℕ → Role

pub record Account : Type 0 where
  pub id : ℕ
  pub email : ℕ
  pub password_hash : ℕ
  pub name : ℕ
  pub role : Role
  pub is_two_factor_enabled : Bool
  pub two_factor_secret : Option ℕ
  pub is_active : Bool
  pub last_login_at : Option ℕ

pub record RefreshToken : Type 0 where
  pub id : ℕ
  pub token : ℕ
  pub user_id : ℕ
  pub expires_at : ℕ
  pub is_revoked : Bool

pub record Db : Type 0 where
  pub accounts : List Account
  pub tokens : List RefreshToken

pub record Clients : Type 0 where
  pub accounts : Prisma Account
  pub tokens : Prisma RefreshToken

abbrev pub has_id : ℕ → Account → Bool
has_id id a = a.id == id

abbrev pub is_token : ℕ → RefreshToken → Bool
is_token token t = t.token == token

-- The rows that meet the condition, rewritten: `updateMany`.
abbrev pub update_many : {V : Type 0} → (V → Bool) → (V → V) → List V → List V
update_many p f = map (λ v. if p v then f v else v)

module _ (c : Clients) where
  -- `uuid` is the id that the database gives the row.
  pub create_user : ℕ → ℕ → ℕ → ℕ → Action Db Account
  create_user uuid email password_hash name = do
    let a : Account = record {
      id = uuid;
      email = email;
      password_hash = password_hash;
      name = name;
      role = Role.user;
      is_two_factor_enabled = false;
      two_factor_secret = none;
      is_active = true;
      last_login_at = none;
    }
    rows ←
        or_throw
          (← gets (λ d. c.accounts.create (λ x. x.id == uuid || x.email == email) a d.accounts))
          unique_violation
    modify (λ d. record d { accounts = rows })
    pure a

  pub find_user_by_email : ℕ → Action Db (Option Account)
  find_user_by_email email = gets (λ d. c.accounts.find_unique (λ a. a.email == email) d.accounts)

  pub find_user_by_id : ℕ → Action Db (Option Account)
  find_user_by_id id = gets (λ d. c.accounts.find_unique (has_id id) d.accounts)

  pub create_refresh_token : ℕ → ℕ → ℕ → ℕ → Action Db RefreshToken
  create_refresh_token uuid token user_id expires_at = do
    let t : RefreshToken = record {
      id = uuid;
      token = token;
      user_id = user_id;
      expires_at = expires_at;
      is_revoked = false;
    }
    rows ←
        or_throw (← gets (λ d. c.tokens.create (λ x. x.id == uuid || is_token token x) t d.tokens))
          unique_violation
    modify (λ d. record d { tokens = rows })
    pure t

  pub find_refresh_token : ℕ → Action Db (Option RefreshToken)
  find_refresh_token token = gets (λ d. c.tokens.find_unique (is_token token) d.tokens)

  pub revoke_refresh_token : ℕ → Action Db (Unit {0})
  revoke_refresh_token token = do
    (_, rows) ←
        or_throw
          (← gets
            (λ d. c.tokens.update (is_token token) (λ t. record t { is_revoked = true }) d.tokens))
          record_required
    modify (λ d. record d { tokens = rows })

  pub revoke_all_user_refresh_tokens : ℕ → Action Db (Unit {0})
  revoke_all_user_refresh_tokens user_id = modify (λ d. record d {
    tokens =
        update_many (λ t. (t.user_id == user_id) && not t.is_revoked)
          (λ t. record t { is_revoked = true }) d.tokens;
  })

  pub update_account : ℕ → (Account → Account) → Action Db (Unit {0})
  update_account id f = do
    (_, rows) ← or_throw (← gets (λ d. c.accounts.update (has_id id) f d.accounts)) record_required
    modify (λ d. record d { accounts = rows })

  pub update_user_two_factor_secret : ℕ → Option ℕ → Action Db (Unit {0})
  update_user_two_factor_secret id secret =
      update_account id (λ a. record a { two_factor_secret = secret })

  pub update_user_two_factor_enabled : ℕ → Bool → Action Db (Unit {0})
  update_user_two_factor_enabled id enabled =
      update_account id (λ a. record a { is_two_factor_enabled = enabled })

  pub update_last_login : ℕ → ℕ → Action Db (Unit {0})
  update_last_login now id = update_account id (λ a. record a { last_login_at = some now })
