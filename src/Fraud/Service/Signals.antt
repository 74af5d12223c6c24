-- ===== src/Fraud/Service/Signals.antt =====
-- fraud.service.ts, `evaluateRule`: the rules on devices and places, run again.
use mathlib.Core.Path.{ap₂}
use nexapay_fintech_super_ap.Common.{◌&&◌, ◌==◌, not, [], ◌∷◌, List, Bool, All, eq_of_==, ap, sym}
use nexapay_fintech_super_ap.Common.{
  subst, map, ◌∷◌, All, Bool, List, or_else, ℕ, ◌≡◌, refl, false, some, Bool-cases, inl, inr,
  ==_refl,
}
use nexapay_fintech_super_ap.Fraud.Entities.{
  blank, CheckTransactionDto, Config, Redis, State, Env, new_device, geo_anomaly,
}
use nexapay_fintech_super_ap.Fraud.Repository.{
  set_last_location, is_new_device, associate_device, get_last_location,
}
use nexapay_fintech_super_ap.Fraud.Service.{is_given, check_device, check_location, evaluate}

module _ (redis : Redis) (env : Env) (dto : CheckTransactionDto) (config : Config) where
  device_twice :
      (d : ℕ) (s : State)
      → (check_device redis env dto d (check_device redis env dto d s).1).0 ≡ false
  unfolding check_device is_new_device associate_device
  device_twice d s = elim (Bool-cases (redis.sismember d (s.devices dto.user_id))) [
    | inl known ↦ rw known (rw known)
    | inr fresh ↦ rw fresh (
        rw (==_refl dto.user_id)
          (rw (redis.sismember-sadd d d (s.devices dto.user_id)) (rw (==_refl d))))
  ]

  -- The second evaluation of the device rule for the same request never triggers: the first one
  -- has recorded the device.
  evaluate-new_device_twice :
      (s : State)
      → (evaluate redis env dto new_device config (evaluate redis env dto new_device config s).1).0
        ≡ false
  unfolding evaluate
  evaluate-new_device_twice s = elim (Bool-cases (is_given dto.device_id)) [
    | inl given ↦ rw given (device_twice (or_else dto.device_id blank) s)
    | inr missing ↦ rw missing refl
  ]

-- A request with a place that is not `home`.
abbrev pub strays : ℕ → CheckTransactionDto → Bool
strays home dto = is_given dto.location && not (home == or_else dto.location blank)

-- The answers of the place rule to a list of requests.
pub places : Redis → Env → Config → List CheckTransactionDto → State → List Bool × State
places redis env config [] s = ([], s)
places redis env config (dto ∷ dtos) s =
    let (hit, s') = evaluate redis env dto geo_anomaly config s in
    let (hits, s'') = places redis env config dtos s' in (hit ∷ hits, s'')

module _ (redis : Redis) (env : Env) (config : Config) (home : ℕ) where
  evaluate-geo_anomaly :
      (dto : CheckTransactionDto) (s : State)
      → s.locations dto.user_id ≡ some home
      → ((evaluate redis env dto geo_anomaly config s).0 ≡ strays home dto)
        × ((evaluate redis env dto geo_anomaly config s).1.locations dto.user_id ≡ some home)
  unfolding evaluate check_location get_last_location set_last_location
  evaluate-geo_anomaly dto s known = elim (Bool-cases (is_given dto.location)) [
    | inr missing ↦ rw missing (refl, known)
    | inl given ↦
        let place = or_else dto.location blank in
        elim (Bool-cases (home == place)) [
          | inl same ↦ rw given (
              rw known (
                rw same
                  (refl, rw (==_refl dto.user_id) (ap some (sym (eq_of_== home place same))))))
          | inr differs ↦ rw given (rw known (rw differs (refl, known)))
        ]
  ]

  -- Once a place of a user is recorded, it stays: of any number of further requests of the user,
  -- the place rule triggers on exactly those that give another place than that first one, and at
  -- the end the recorded place is still that one.
  pub places-home :
      (user_id : ℕ) (dtos : List CheckTransactionDto) (s : State)
      → s.locations user_id ≡ some home
      → All (λ dto. dto.user_id ≡ user_id) dtos
      → ((places redis env config dtos s).0 ≡ map (strays home) dtos)
        × ((places redis env config dtos s).1.locations user_id ≡ some home)
  unfolding places
  places-home user_id [] s known own = (refl, known)
  places-home user_id (dto ∷ dtos) s known (first, rest) =
      let s' = (evaluate redis env dto geo_anomaly config s).1 in
      let known' : s.locations dto.user_id ≡ some home = rw first known in
      let (hit, kept) = evaluate-geo_anomaly dto s known' in
      let kept' : s'.locations user_id ≡ some home =
        subst (λ u. s'.locations u ≡ some home) first kept in
      let (hits, last) = places-home user_id dtos s' kept' rest in (ap₂ ◌∷◌ hit hits, last)
