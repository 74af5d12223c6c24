-- ===== src/Common/Action.antt =====
-- An async method as a function on the state: it returns or throws, and what it wrote before a
-- throw stays written.
use mathlib.Core.Bool.{Bool, true, false}
use mathlib.Core.Option.{Option, none, some}

-- What the services throw: the exceptions of Nest by their status, `Error`s of the repositories by
-- their message, the errors of the database client by its codes, and a call that Redis refuses.
pub data Exception : Type 0 where
  bad_request forbidden not_found conflict too_many_requests : Exception
  insufficient_balance version_conflict wallet_missing destination_missing : Exception
  record_required unique_violation validation_failed cast_failed : Exception
  internal_error unauthorized cache_unavailable : Exception
  empty_plaintext key_missing incomplete_data authentication_failed invalid_json : Exception

pub data Result (A : Type 0) : Type 0 where
  ok : A → Result A
  err : Exception → Result A

abbrev pub Action : Type 0 → Type 0 → Type 0
Action S A = S → Result A × S

-- What follows a call: its value is passed on, and a throw ends the method.
abbrev pub continue : {S A B : Type 0} → Result A × S → (A → Action S B) → Result B × S
continue (ok a, s) f = f a s
continue (err e, s) f = (err e, s)

abbrev pub first_error : {A : Type 0} → Result (Unit {0}) → Result A → Result A
first_error (ok _) r = r
first_error (err e) _ = err e

infixl 5 ◌>>=◌ ◌>>◌
abbrev pub ◌>>=◌ : {S A B : Type 0} → Action S A → (A → Action S B) → Action S B
◌>>=◌ m f s = continue (m s) f

abbrev pub ◌>>◌ : {S A B : Type 0} → Action S A → Action S B → Action S B
m >> k = m >>= λ _. k

module _ {S A : Type 0} where
  abbrev pub pure : A → Action S A
  pure a s = (ok a, s)

  abbrev pub throw : Exception → Action S A
  throw e s = (err e, s)

  abbrev pub gets : (S → A) → Action S A
  gets f s = (ok (f s), s)

  -- `if (!value) throw e`
  abbrev pub or_throw : Option A → Exception → Action S A
  or_throw none e = throw e
  or_throw (some a) _ = pure a

module _ {S : Type 0} where
  abbrev pub modify : (S → S) → Action S (Unit {0})
  modify f s = (ok tt, f s)

  -- `Promise.all` of two actions: both run, and a throw of one is thrown.
  abbrev pub together : Action S (Unit {0}) → Action S (Unit {0}) → Action S (Unit {0})
  together m k s = let (r, s') = m s in let (q, s'') = k s' in (first_error r q, s'')

  -- `if (test) throw e`
  abbrev pub throw_if : Bool → Exception → Action S (Unit {0})
  throw_if true e = throw e
  throw_if false _ = pure tt
