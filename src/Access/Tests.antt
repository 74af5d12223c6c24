-- ===== src/Access/Tests.antt =====
-- Instances of the theorems on what stands before the services.
use nexapay_fintech_super_ap.Common.{ℕ, suc, ◌≡◌, ◌↔◌, refl, true, none, some, [], ◌∷◌, ◌++◌, arith}
use nexapay_fintech_super_ap.Common.Action.{Action, ok, err, conflict}
use nexapay_fintech_super_ap.Common.InMemory.{Cache, redis}
use nexapay_fintech_super_ap.Access.Gateway.{
  User, Request, Verification, Env, Outcome, bearer_prefix, has_role,
}
use nexapay_fintech_super_ap.Access.Gateway.Guarded.{Authenticates, guarded, as_user, guarded_iff}
use nexapay_fintech_super_ap.Access.Interceptor.{State, intercept}
use nexapay_fintech_super_ap.Access.Interceptor.Replay.{intercept-intercept}

abbrev admin : User
admin = record { sub = 7; role = 1; email = 2 }

abbrev process : Env
process = record {
  jwt_secret = some 3;
  verify = λ token secret. Verification.decoded admin;
  uuid = 4;
  production = true;
}

abbrev asked : Request
asked = record {
  authorization = some (bearer_prefix ++ 120 ∷ 32 ∷ []);
  request_id = none;
  user = none;
}

guarded_iff_example : (guarded process (1 ∷ 5 ∷ []) asked ≡ Outcome.next (as_user asked admin)) ↔ (
    (user : User) × Authenticates process asked user
    × (has_role (1 ∷ 5 ∷ []) user ≡ true)
    × (as_user asked admin ≡ as_user asked user))
guarded_iff_example = guarded_iff process (1 ∷ 5 ∷ []) asked (as_user asked admin)

-- The handler counts its calls.
abbrev counts : Action ℕ ℕ
counts n = (ok 200, suc n)

abbrev fresh : State (Cache ℕ) ℕ
fresh = record { cache = λ _. none; inner = 0 }

intercept-intercept_example :
    (s' : State (Cache ℕ) ℕ) × (intercept redis 1000 (some 5) none counts fresh ≡ (ok 200, s'))
    × (s'.inner ≡ 1)
    × (intercept redis 9000 none (some 5) counts s' ≡ (err conflict, s'))
intercept-intercept_example =
    intercept-intercept redis 1000 9000 (some 5) none none (some 5) counts counts fresh refl refl
      refl refl (omega arith)
