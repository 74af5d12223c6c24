-- ===== src/Access/Gateway/Guarded.antt =====
-- auth.middleware.ts: `authMiddleware` followed by `requireRole`.
use nexapay_fintech_super_ap.Common.{
  ℕ, ◌≡◌, refl, sym, ap, ◌∙◌, ◌↔◌, Bool, true, false, Option, none, some, List, [], ◌∷◌, drop,
  if◌then◌else◌,
}
use nexapay_fintech_super_ap.Access.Gateway.{
  has_role, with_header, verified_with, User, Request, Verification, Env, Outcome, ErrorCode,
  bearer_prefix, starts_with, trim, verified, with_token, auth_middleware, require_role, then_,
}

abbrev pub is_blank : List ℕ → Bool
is_blank [] = true
is_blank (_ ∷ _) = false

-- What a request has to bring for a user: a header with the prefix and a token that is not blank, and that
-- the secret verifies.
abbrev pub Authenticates : Env → Request → User → Type 0
Authenticates env req user =
    (header : List ℕ) × (secret : ℕ) × (req.authorization ≡ some header)
    × (starts_with bearer_prefix header ≡ true)
    × (is_blank (trim (drop 7 header)) ≡ false)
    × (env.jwt_secret ≡ some secret)
    × (env.verify (trim (drop 7 header)) secret ≡ Verification.decoded user)

abbrev pub guarded : Env → List ℕ → Request → Outcome
guarded env roles req = then_ (auth_middleware env req) (require_role roles)

-- The request that the handler gets.
abbrev pub as_user : Request → User → Request
as_user req user = record req { user = some user }

checked_next :
    (b : Bool) (q r : Request)
    → (if b then Outcome.next q else Outcome.responds 403 ErrorCode.forbidden) ≡ Outcome.next r
    → (b ≡ true) × (r ≡ q)
checked_next true q r h = (refl, ap (λ o. elim o [ Outcome.next x ↦ x | _ ↦ r ]) (sym h))
checked_next false q r h = cc

module _ (env : Env) (roles : List ℕ) (req r : Request) where
  -- The end of a request that is let through.
  abbrev Admits : Verification → Type 0
  Admits v =
      (user : User) × (v ≡ Verification.decoded user)
      × (has_role roles user ≡ true)
      × (r ≡ as_user req user)

  verified-next :
      (v : Verification) → then_ (verified req v) (require_role roles) ≡ Outcome.next r → Admits v
  unfolding require_role
  verified-next (Verification.failed true) h = cc
  verified-next (Verification.failed false) h = cc
  verified-next Verification.no_object h = cc
  verified-next (Verification.decoded user) h =
      let (role, same) = checked_next (has_role roles user) (as_user req user) r h in
      (user, refl, role, same)

  with_token-next :
      (token : List ℕ)
      → then_ (with_token env req token) (require_role roles) ≡ Outcome.next r
      → (secret : ℕ) × (is_blank token ≡ false)
        × (env.jwt_secret ≡ some secret)
        × Admits (env.verify token secret)
  with_token-next [] h = cc
  with_token-next (x ∷ xs) h = secret_next x xs env.jwt_secret refl h
    where
      secret_next :
          (x : ℕ) (xs : List ℕ) (o : Option ℕ)
          → env.jwt_secret ≡ o
          → then_ (verified_with env req (x ∷ xs) o) (require_role roles) ≡ Outcome.next r
          → (secret : ℕ) × (is_blank (x ∷ xs) ≡ false)
            × (env.jwt_secret ≡ some secret)
            × Admits (env.verify (x ∷ xs) secret)
      secret_next x xs none e h = cc
      secret_next x xs (some secret) e h =
          (secret, refl, e, verified-next (env.verify (x ∷ xs) secret) h)

  prefixed_next :
      (b : Bool) (token : List ℕ)
      → then_
          (if b then with_token env req token else Outcome.responds 401 ErrorCode.unauthorized)
          (require_role roles)
        ≡ Outcome.next r
      → (b ≡ true) × (then_ (with_token env req token) (require_role roles) ≡ Outcome.next r)
  prefixed_next true token h = (refl, h)
  prefixed_next false token h = cc

  with_token_full :
      (token : List ℕ)
      → is_blank token ≡ false
      → with_token env req token ≡ verified_with env req token env.jwt_secret
  with_token_full [] h = cc
  with_token_full (x ∷ xs) h = refl

  with_header-next :
      (o : Option (List ℕ))
      → req.authorization ≡ o
      → then_ (with_header env req o) (require_role roles) ≡ Outcome.next r
      → (user : User) × Authenticates env req user
        × (has_role roles user ≡ true)
        × (r ≡ as_user req user)
  with_header-next none e h = cc
  with_header-next (some header) e h =
      let (prefix, h') =
        prefixed_next (starts_with bearer_prefix header) (trim (drop 7 header)) h in
      let (secret, full, set, (user, valid, role, same)) =
        with_token-next (trim (drop 7 header)) h' in
      (user, (header, secret, e, prefix, full, set, valid), role, same)

  -- A request passes the authentication and the check of the roles exactly when it brings a Bearer
  -- token that is not blank and that the secret of the process verifies as one of a user with one of the
  -- roles; the handler then gets the request with that user, and no other field changed.
  pub guarded_iff : (guarded env roles req ≡ Outcome.next r) ↔ (
      (user : User) × Authenticates env req user
      × (has_role roles user ≡ true)
      × (r ≡ as_user req user))
  unfolding auth_middleware require_role
  guarded_iff = (
    λ h. with_header-next req.authorization refl h,
    λ (user, (header, secret, e, prefix, full, set, valid), role, same).
        let token = trim (drop 7 header) in
        let k = require_role roles in
        ap (λ o. then_ (with_header env req o) k) e
        ∙ ap
            (λ b.
              then_
                (if b
                  then with_token env req token
                  else Outcome.responds 401 ErrorCode.unauthorized)
                k)
            prefix
        ∙ ap (λ o. then_ o k)
            (with_token_full token full
              ∙ ap (verified_with env req token) set
              ∙ ap (verified req) valid)
        ∙ ap
            (λ b.
              if b
              then Outcome.next (as_user req user)
              else Outcome.responds 403 ErrorCode.forbidden)
            role
        ∙ ap Outcome.next (sym same),
  )
