-- ===== src/Access/Gateway.antt =====
-- auth.middleware.ts, error-handler.ts and request-id.ts of the gateway, and roles.guard.ts. A header is
-- the list of its UTF-16 code units; other texts and roles are only compared, and are numbers.
pub mod Guarded
use nexapay_fintech_super_ap.Common.{
  ℕ, Bool, true, false, not, ◌&&◌, ◌||◌, Option, none, some, List, [], ◌∷◌, ◌++◌, ◌==◌, leb, any,
  drop, or_else, if◌then◌else◌,
}
use nexapay_fintech_super_ap.Common.Action.{Result, ok, err, Exception}

-- The claims of a token.
pub record User : Type 0 where
  pub sub : ℕ
  pub role : ℕ
  pub email : ℕ

pub record Request : Type 0 where
  pub authorization : Option (List ℕ)
  pub request_id : Option ℕ
  pub user : Option User

-- What `verify` of jsonwebtoken calls back with: an error, which may be that of an expired token, a
-- payload that is no object, or the claims.
pub data Verification : Type 0 where
  failed : (expired : Bool) → Verification
  no_object : Verification
  decoded : User → Verification

-- The variables of the process and the library: `verify` under a secret.
pub record Env : Type 0 where
  pub jwt_secret : Option ℕ
  pub verify : List ℕ → ℕ → Verification
  pub uuid : ℕ
  pub production : Bool

-- The `error` of a response.
pub data ErrorCode : Type 0 where
  unauthorized token_expired forbidden not_found invalid_json internal_error : ErrorCode
  application : ℕ → ErrorCode

-- A middleware answers with a status, calls `next`, or throws.
pub data Outcome : Type 0 where
  responds : ℕ → ErrorCode → Outcome
  next : Request → Outcome
  throws : Outcome

-- "Bearer "
abbrev pub bearer_prefix : List ℕ
bearer_prefix = 66 ∷ 101 ∷ 97 ∷ 114 ∷ 101 ∷ 114 ∷ 32 ∷ []

-- `text.startsWith(prefix)`
abbrev pub starts_with : List ℕ → List ℕ → Bool
starts_with [] text = true
starts_with (x ∷ xs) [] = false
starts_with (x ∷ xs) (y ∷ ys) = (x == y) && starts_with xs ys

-- The white space that `trim` takes away.
abbrev pub is_space : ℕ → Bool
is_space x =
    leb 9 x && leb x 13
    || x == 32
    || x == 160
    || x == 5760
    || leb 8192 x && leb x 8202
    || x == 8232
    || x == 8233
    || x == 8239
    || x == 8287
    || x == 12288
    || x == 65279

abbrev pub trim_start : List ℕ → List ℕ
trim_start [] = []
trim_start (x ∷ xs) = let rest = trim_start xs in if is_space x then rest else x ∷ xs

abbrev pub trim_end : List ℕ → List ℕ
trim_end [] = []
trim_end (x ∷ xs) = with_first x (trim_end xs)
  where
    with_first : ℕ → List ℕ → List ℕ
    with_first x [] = if is_space x then [] else x ∷ []
    with_first x (y ∷ ys) = x ∷ y ∷ ys

abbrev pub trim : List ℕ → List ℕ
trim text = trim_end (trim_start text)

-- The callback of `verify`.
abbrev pub verified : Request → Verification → Outcome
verified req (Verification.failed true) = Outcome.responds 401 ErrorCode.token_expired
verified req (Verification.failed false) = Outcome.responds 403 ErrorCode.forbidden
verified req Verification.no_object = Outcome.responds 403 ErrorCode.forbidden
verified req (Verification.decoded user) = Outcome.next (record req { user = some user })

-- With the secret, if it is set: without it, `getSecret` throws.
abbrev pub verified_with : Env → Request → List ℕ → Option ℕ → Outcome
verified_with env req token none = Outcome.throws
verified_with env req token (some secret) = verified req (env.verify token secret)

-- A token that is empty is refused.
abbrev pub with_token : Env → Request → List ℕ → Outcome
with_token env req [] = Outcome.responds 401 ErrorCode.unauthorized
with_token env req (x ∷ xs) = verified_with env req (x ∷ xs) env.jwt_secret

abbrev pub with_header : Env → Request → Option (List ℕ) → Outcome
with_header env req none = Outcome.responds 401 ErrorCode.unauthorized
with_header env req (some header) =
    if starts_with bearer_prefix header
    then with_token env req (trim (drop 7 header))
    else Outcome.responds 401 ErrorCode.unauthorized

unfoldable pub auth_middleware : Env → Request → Outcome
auth_middleware env req = with_header env req req.authorization

-- `roles.includes(user.role)`
abbrev pub has_role : List ℕ → User → Bool
has_role roles user = any (λ role. role == user.role) roles

abbrev pub with_role : List ℕ → Request → Option User → Outcome
with_role roles req none = Outcome.responds 401 ErrorCode.unauthorized
with_role roles req (some user) =
    if has_role roles user then Outcome.next req else Outcome.responds 403 ErrorCode.forbidden

unfoldable pub require_role : List ℕ → Request → Outcome
require_role roles req = with_role roles req req.user

abbrev pub request_id_middleware : Env → Request → Outcome
request_id_middleware env req =
    Outcome.next (record req { request_id = some (or_else req.request_id env.uuid) })

-- One middleware after the other.
abbrev pub then_ : Outcome → (Request → Outcome) → Outcome
then_ (Outcome.next req) k = k req
then_ (Outcome.responds status code) k = Outcome.responds status code
then_ Outcome.throws k = Outcome.throws

abbrev pub not_found_handler : Request → Outcome
not_found_handler req = Outcome.responds 404 ErrorCode.not_found

-- An `AppError`, a `SyntaxError` of the body parser, or any other.
pub data AppError : Type 0 where
  app_error : (status_code code : ℕ) → AppError
  body_syntax other : AppError

abbrev pub error_handler : AppError → Outcome
error_handler (AppError.app_error status code) =
    Outcome.responds status (ErrorCode.application code)
error_handler AppError.body_syntax = Outcome.responds 400 ErrorCode.invalid_json
error_handler AppError.other = Outcome.responds 500 ErrorCode.internal_error

-- `canActivate` of the guard, with the roles that the decorators of the handler or the class set.
abbrev pub can_activate : Option (List ℕ) → Option User → Result Bool
can_activate none user = ok true
can_activate (some []) user = ok true
can_activate (some (r ∷ roles)) none = err Exception.forbidden
can_activate (some (r ∷ roles)) (some user) =
    if has_role (r ∷ roles) user then ok true else err Exception.forbidden
