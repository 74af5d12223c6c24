-- ===== src/Fraud/Service/Reviews.antt =====
-- fraud.service.ts, `reviewFlag`: the list of flags after a review.
use nexapay_fintech_super_ap.Common.{
  ℕ, ◌≡◌, refl, sym, ◌∙◌, ap, Option, none, some, List, [], ◌∷◌, ◌==◌, map, if◌then◌else◌,
  Bool-cases, Option-cases, inl, inr, eq_of_==, ==_refl, ne_of_not-==, ne→not-==,
}
use nexapay_fintech_super_ap.Fraud.Entities.{FraudFlag, FlagStatus, State, Env}
use nexapay_fintech_super_ap.Fraud.Repository.{update}
use nexapay_fintech_super_ap.Fraud.Service.{fetch, get_all_flags, review_flag}

-- A flag after a review.
abbrev pub reviewed_flag : Env → FlagStatus → FraudFlag → FraudFlag
reviewed_flag env status f = record f {
  status = status;
  metadata = record (f.metadata) { reviewed_at = some env.now };
}

-- Every flag is stored under its id.
abbrev pub Indexed : (ℕ → Option FraudFlag) → Type 0
Indexed flags = (id : ℕ) (f : FraudFlag) → flags id ≡ some f → f.id ≡ id

fetch-some :
    (flags : ℕ → Option FraudFlag) (i : ℕ) (ids : List ℕ) {f : FraudFlag}
    → flags i ≡ some f
    → fetch flags (i ∷ ids) ≡ f ∷ fetch flags ids
fetch-some flags i ids e =
    ap (λ o. elim o [ none ↦ fetch flags ids | some f ↦ f ∷ fetch flags ids ]) e

fetch-none :
    (flags : ℕ → Option FraudFlag) (i : ℕ) (ids : List ℕ)
    → flags i ≡ none
    → fetch flags (i ∷ ids) ≡ fetch flags ids
fetch-none flags i ids e =
    ap (λ o. elim o [ none ↦ fetch flags ids | some f ↦ f ∷ fetch flags ids ]) e

fetch-update :
    (flags : ℕ → Option FraudFlag) (id : ℕ) (g : FraudFlag → FraudFlag) (ids : List ℕ)
    {f : FraudFlag}
    → Indexed flags
    → flags id ≡ some f
    → fetch (update flags id (some (g f))) ids
      ≡ map (λ x. if x.id == id then g x else x) (fetch flags ids)
fetch-update flags id g [] indexed e = refl
fetch-update flags id g (i ∷ ids) {f} indexed e =
    let rest = fetch-update flags id g ids {f = f} indexed e in
    elim (Bool-cases (i == id)) [
      | inl same ↦ rw (fetch-some (update flags id (some (g f))) i ids {f = g f} (rw same refl)) (
          rw (fetch-some flags i ids (ap flags (eq_of_== i id same) ∙ e))
            (rw (ap (λ n. n == id) (indexed id f e) ∙ ==_refl id) (ap (λ l. g f ∷ l) rest)))
      | inr other ↦ elim (Option-cases (flags i)) [
        | inl missing ↦
            rw (fetch-none (update flags id (some (g f))) i ids (rw other missing))
              (rw (fetch-none flags i ids missing) rest)
        | inr (x, found) ↦
            rw (fetch-some (update flags id (some (g f))) i ids {f = x} (rw other found)) (
              rw (fetch-some flags i ids found) (
                rw (ne→not-== x.id id (λ h. ne_of_not-== i id other (sym (indexed i x found) ∙ h)))
                  (ap (λ l. x ∷ l) rest)))
      ]
    ]

review_flag_lem :
    (env : Env) (id : ℕ) (status : FlagStatus) (s : State) {f : FraudFlag}
    → s.flags id ≡ some f
    → (review_flag env id status s).1
      ≡ record s { flags = update s.flags id (some (reviewed_flag env status f)) }
unfolding review_flag
review_flag_lem env id status s e = rw (e, review_flag) refl

-- Where every flag is stored under its id, a review of a stored flag changes that flag in the
-- list of all flags, in its status and the time of its review, and leaves every other flag and
-- their order as they are.
pub review_flag-get_all_flags :
    (env : Env) (id : ℕ) (status : FlagStatus) (s : State) {f : FraudFlag}
    → Indexed s.flags
    → s.flags id ≡ some f
    → get_all_flags (review_flag env id status s).1
      ≡ map (λ x. if x.id == id then reviewed_flag env status x else x) (get_all_flags s)
unfolding get_all_flags
review_flag-get_all_flags env id status s {f} indexed e =
    rw (review_flag_lem env id status s e)
      (fetch-update s.flags id (reviewed_flag env status) s.flag_list {f = f} indexed e)
