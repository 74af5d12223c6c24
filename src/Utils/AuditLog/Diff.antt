-- ===== src/Utils/AuditLog/Diff.antt =====
-- audit-log.ts, `createAuditDiff`: what the changes say of the two versions.
use nexapay_fintech_super_ap.Common.{
  ◌↔◌, subst, ℕ, ◌≡◌, refl, sym, ap, ◌∙◌, Bool, true, false, ◌||◌, Option, none, some, List, [],
  ◌∷◌, ◌++◌, ◌==◌, any, if◌then◌else◌, Bool-cases, inl, inr, eq_of_==, ==_refl, arith,
}
use nexapay_fintech_super_ap.Utils.AuditLog.{
  Object, AuditChangeValue, lookup, assign, keys, distinct_from, diff_loop, create_audit_diff,
}

-- A value after the changes are made, and before.
abbrev pub redo : {V : Type 0} → Option (AuditChangeValue V) → Option V → Option V
redo none value = value
redo (some c) _ = c.to_

abbrev pub undo : {V : Type 0} → Option (AuditChangeValue V) → Option V → Option V
undo none value = value
undo (some c) _ = c.from_

lookup-assign_same :
    {W : Type 0} (key : ℕ) (w : W) (o : Object W) → lookup key (assign key w o) ≡ some w
lookup-assign_same key w [] = rw (==_refl key) refl
lookup-assign_same key w ((k, v) ∷ o) = elim (Bool-cases (k == key)) [
  | inl e ↦ rw e (rw e refl)
  | inr e ↦ rw e (rw e (lookup-assign_same key w o))
]

lookup-assign_other :
    {W : Type 0} (key k : ℕ) (w : W) (o : Object W)
    → (k == key) ≡ false
    → lookup key (assign k w o) ≡ lookup key o
lookup-assign_other key k w [] h = rw h refl
lookup-assign_other key k w ((k', v) ∷ o) h = elim (Bool-cases (k' == k)) [
  | inl e ↦ let other : (k' == key) ≡ false = ground arith in rw e (rw other refl)
  | inr e ↦ rw e (ground (arith, lookup-assign_other key k w o h))
]

lookup-missing :
    {V : Type 0} (key : ℕ) (o : Object V)
    → any (λ k. k == key) (keys o) ≡ false
    → lookup key o ≡ none
lookup-missing key [] h = refl
lookup-missing key ((k, v) ∷ o) h = ground (arith, lookup-missing key o)

any-append : (p : ℕ → Bool) (xs ys : List ℕ) → any p (xs ++ ys) ≡ (any p xs || any p ys)
any-append p [] ys = refl
any-append p (x ∷ xs) ys = ground (arith, any-append p xs ys)

-- A key stays among the distinct ones, unless it was seen.
any-distinct_from :
    (key : ℕ) (seen xs : List ℕ)
    → any (λ y. y == key) seen ≡ false
    → any (λ y. y == key) (distinct_from seen xs) ≡ any (λ y. y == key) xs
any-distinct_from key seen [] h = refl
any-distinct_from key seen (x ∷ xs) h = elim (Bool-cases (any (λ y. y == x) seen)) [
  | inl was ↦ elim (Bool-cases (x == key)) [
    | inl e ↦
        let again : any (λ y. y == key) seen ≡ true =
          subst (λ n. any (λ y. y == n) seen ≡ true) (eq_of_== x key e) was in
        cc
    | inr e ↦ rw was (rw e (any-distinct_from key seen xs h))
  ]
  | inr new ↦ rw new (elim (Bool-cases (x == key)) [
    | inl e ↦ rw e refl
    | inr e ↦ rw e (any-distinct_from key (x ∷ seen) xs (rw e h))
  ])
]

or_true : (b : Bool) → (b || true) ≡ true
or_true true = refl
or_true false = refl

or_false : (b : Bool) → (b || false) ≡ b
or_false true = refl
or_false false = refl

or_assoc : (a b c : Bool) → ((a || b) || c) ≡ (a || (b || c))
or_assoc true b c = refl
or_assoc false b c = refl

module _ {V : Type 0} (stringify : Option V → ℕ) (before after : Object V) where
  abbrev same_at : ℕ → Bool
  same_at key = stringify (lookup key before) == stringify (lookup key after)

  abbrev change : ℕ → AuditChangeValue V
  change key = record { from_ = lookup key before; to_ = lookup key after }

  -- What the changes hold of a key, once the loop has met it.
  abbrev change_at : ℕ → Option (AuditChangeValue V)
  change_at key = if same_at key then none else some (change key)

  abbrev held : Bool → ℕ → Option (AuditChangeValue V)
  held met key = if met then change_at key else none

  held-none : (met : Bool) (key : ℕ) → same_at key ≡ true → held met key ≡ none
  held-none true key s = rw s refl
  held-none false key s = refl

  round_same :
      (key : ℕ) (met : Bool) (changes : Object (AuditChangeValue V))
      → lookup key changes ≡ held met key
      → lookup key (if same_at key then changes else assign key (change key) changes)
        ≡ change_at key
  round_same key met changes h = elim (Bool-cases (same_at key)) [
    | inl s ↦
        ap (λ b. lookup key (if b then changes else assign key (change key) changes)) s
        ∙ h
        ∙ held-none met key s
        ∙ ap (λ b. if b then none else some (change key)) (sym s)
    | inr s ↦
        ap (λ b. lookup key (if b then changes else assign key (change key) changes)) s
        ∙ lookup-assign_same key (change key) changes
        ∙ ap (λ b. if b then none else some (change key)) (sym s)
  ]

  lookup-round :
      (key k : ℕ) (met : Bool) (changes : Object (AuditChangeValue V))
      → lookup key changes ≡ held met key
      → lookup key (if same_at k then changes else assign k (change k) changes)
        ≡ held (met || (k == key)) key
  lookup-round key k met changes h = elim (Bool-cases (k == key)) [
    | inr e ↦
        let kept : held met key ≡ held (met || (k == key)) key =
          ap (λ b. held b key) (sym (or_false met) ∙ ap (λ b. met || b) (sym e)) in
        elim (Bool-cases (same_at k)) [
          | inl s ↦
              ap (λ b. lookup key (if b then changes else assign k (change k) changes)) s ∙ h ∙ kept
          | inr s ↦
              ap (λ b. lookup key (if b then changes else assign k (change k) changes)) s
              ∙ lookup-assign_other key k (change k) changes e
              ∙ h
              ∙ kept
        ]
    | inl e ↦
        subst
          (λ n.
            lookup key (if same_at n then changes else assign n (change n) changes)
            ≡ held (met || (k == key)) key)
          (sym (eq_of_== k key e))
          (round_same key met changes h
            ∙ ap (λ b. held b key) (sym (or_true met) ∙ ap (λ b. met || b) (sym e)))
  ]

  lookup-diff_loop :
      (key : ℕ) (ks : List ℕ) (met : Bool) (changes : Object (AuditChangeValue V))
      → lookup key changes ≡ held met key
      → lookup key (diff_loop stringify ks before after changes)
        ≡ held (met || any (λ k. k == key) ks) key
  unfolding diff_loop
  lookup-diff_loop key [] met changes h = h ∙ ap (λ b. held b key) (sym (or_false met))
  lookup-diff_loop key (k ∷ ks) met changes h =
      lookup-diff_loop key ks (met || (k == key)) _ (lookup-round key k met changes h)
      ∙ ap (λ b. held b key) (or_assoc met (k == key) (any (λ x. x == key) ks))

  -- A key of neither version has no change.
  met_all :
      (key : ℕ)
      → held (any (λ k. k == key) (keys before) || any (λ k. k == key) (keys after)) key
        ≡ change_at key
  met_all key = elim (Bool-cases (any (λ k. k == key) (keys before))) [
    | inl e ↦ rw e refl
    | inr e ↦ elim (Bool-cases (any (λ k. k == key) (keys after))) [
      | inl e' ↦ rw (e, e') refl
      | inr e' ↦
          rw (e, e')
            (rw (lookup-missing key before e, lookup-missing key after e')
              (rw (==_refl (stringify none)) refl))
    ]
  ]

  lookup-create_audit_diff :
      (key : ℕ) → lookup key (create_audit_diff stringify before after) ≡ change_at key
  unfolding create_audit_diff
  lookup-create_audit_diff key =
      lookup-diff_loop key (distinct_from [] (keys before ++ keys after)) false [] refl
      ∙ ap (λ b. held b key)
          (any-distinct_from key [] (keys before ++ keys after) refl
            ∙ any-append (λ k. k == key) (keys before) (keys after))
      ∙ met_all key

  -- The changes between two versions make one of the other: at every key, the second version has
  -- the JSON of the first with the changes made, and the first that of the second with the
  -- changes taken back; a change is there only where the JSON of the two differs.
  pub create_audit_diff_round_trip :
      (key : ℕ)
      → (stringify
            (redo (lookup key (create_audit_diff stringify before after)) (lookup key before))
          ≡ stringify (lookup key after))
        × (stringify
              (undo (lookup key (create_audit_diff stringify before after)) (lookup key after))
            ≡ stringify (lookup key before))
        × ((lookup key (create_audit_diff stringify before after) ≡ none)
            ↔ (stringify (lookup key before) ≡ stringify (lookup key after)))
  create_audit_diff_round_trip key =
      rw (lookup-create_audit_diff key) (elim (Bool-cases (same_at key)) [
        | inl s ↦
            let p = eq_of_== (stringify (lookup key before)) (stringify (lookup key after)) s in
            rw s (p, sym p, (λ _. p, λ _. refl))
        | inr s ↦ rw s (refl, refl, (λ e. cc, λ e. ground arith))
      ])
