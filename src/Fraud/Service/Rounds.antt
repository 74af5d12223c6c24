-- ===== src/Fraud/Service/Rounds.antt =====
-- fraud.service.ts, `checkTransaction`: one round of the loop, by its tests.
use nexapay_fintech_super_ap.Common.{
  ◌≡◌, refl, Bool, true, false, not, ◌&&◌, ◌||◌, List, [], ◌∷◌, ◌++◌, map, if◌then◌else◌,
}
use mathlib.Core.List.{map-append, append-nil}
use nexapay_fintech_super_ap.Fraud.Entities.{FraudFlag, State}

pub or-false : (b : Bool) → b ≡ (b || false)
or-false true = refl
or-false false = refl

-- One round of the loop, by whether the rule is enabled and whether it triggers.
abbrev pub round :
    Bool
    → Bool
    → Bool
    → Bool
    → List FraudFlag
    → FraudFlag
    → State
    → State
    → State
    → List FraudFlag × Bool × State
round on hit blocking b flags f s s' s'' =
    if not on
    then (flags, b, s)
    else if hit
    then (flags ++ f ∷ [], b || blocking, s'')
    else (flags, b, s')

pub round_lem :
    (on hit blocking b : Bool) (flags : List FraudFlag) (f : FraudFlag) (s s' s'' : State)
    → let r = round on hit blocking b flags f s s' s'' in
      (map (λ x. x.rule_id) r.0
        ≡ map (λ x. x.rule_id) flags ++ (if on && hit then f.rule_id ∷ [] else []))
      × (r.1 ≡ (b || ((on && hit) && blocking)))
      × (r.2 ≡ (round on hit blocking false [] f s s' s'').2)
round_lem true true blocking b flags f s s' s'' =
    (map-append (λ x. x.rule_id) flags (f ∷ []), refl, refl)
round_lem true false blocking b flags f s s' s'' = (rw append-nil refl, or-false b, refl)
round_lem false hit blocking b flags f s s' s'' = (rw append-nil refl, or-false b, refl)

pub round_frozen :
    (on hit blocking b : Bool) (flags : List FraudFlag) (f : FraudFlag) (s s' s'' : State)
    → s'.frozen ≡ s.frozen
    → s''.frozen ≡ s.frozen
    → (round on hit blocking b flags f s s' s'').2.frozen ≡ s.frozen
round_frozen true true blocking b flags f s s' s'' h k = k
round_frozen true false blocking b flags f s s' s'' h k = h
round_frozen false hit blocking b flags f s s' s'' h k = refl
