-- ===== src/Notification/Gateway/Sockets.antt =====
-- notification.gateway.ts: what the changes of the map of sockets do to the connections it holds.
use nexapay_fintech_super_ap.Common.{
  ℕ, ◌≡◌, refl, sym, ap, subst, ◌∙◌, Bool, true, false, not, ◌&&◌, ◌||◌, List, [], ◌∷◌, ◌++◌, ◌==◌,
  any, All, filter, map, if◌then◌else◌, Bool-cases, inl, inr, eq_of_==, arith,
}
use nexapay_fintech_super_ap.Notification.Gateway.{
  UserSockets, add, add_socket, is_empty, remove_socket,
}

-- A user and a socket each.
abbrev pub Connections : Type 0
Connections = List (ℕ × ℕ)

abbrev pub has_socket : ℕ → Connections → Bool
has_socket client = any (λ p. p.1 == client)

-- The connections that the map holds.
abbrev pub pairs : ℕ → List ℕ → Connections
pairs user = map (λ s. (user, s))

abbrev pub flatten : UserSockets → Connections
flatten [] = []
flatten ((u, sockets) ∷ rest) = pairs u sockets ++ flatten rest

-- A socket is in one set only.
abbrev pub IsSeparate : UserSockets → Type 0
IsSeparate [] = Unit
IsSeparate ((_, sockets) ∷ rest) =
    ((s : ℕ) → any (λ x. x == s) sockets ≡ true → has_socket s (flatten rest) ≡ false)
    × IsSeparate rest

-- No set is empty.
abbrev pub IsFilled : UserSockets → Type 0
IsFilled = All (λ e. is_empty e.1 ≡ false)

pub or_false : (b : Bool) → (b || false) ≡ b
or_false true = refl
or_false false = refl

or_absorb : (a b : Bool) → ((a || b) || a) ≡ (a || b)
or_absorb true b = refl
or_absorb false true = refl
or_absorb false false = refl

and_not : (a b : Bool) → b ≡ false → (a && not b) ≡ a
and_not true b e = rw e refl
and_not false b e = refl

or_assoc : (a b c : Bool) → ((a || b) || c) ≡ (a || (b || c))
or_assoc true b c = refl
or_assoc false b c = refl

or_swap : (a b c : Bool) → ((a || b) || c) ≡ ((a || c) || b)
or_swap true b c = refl
or_swap false true true = refl
or_swap false true false = refl
or_swap false false true = refl
or_swap false false false = refl

module _ {A : Type 0} (q : A → Bool) where
  pub any-append : (xs ys : List A) → any q (xs ++ ys) ≡ (any q xs || any q ys)
  any-append [] ys = refl
  any-append (x ∷ xs) ys =
      ap (λ b. q x || b) (any-append xs ys) ∙ sym (or_assoc (q x) (any q xs) (any q ys))

  pub any-filter : (p : A → Bool) (xs : List A) → any q (filter p xs) ≡ any (λ x. q x && p x) xs
  any-filter p [] = refl
  any-filter p (x ∷ xs) = ground (arith, any-filter p xs)

  pub any-and_false :
      (p : A → Bool) (xs : List A) → any q xs ≡ false → any (λ x. q x && p x) xs ≡ false
  any-and_false p [] h = refl
  any-and_false p (x ∷ xs) h = ground (arith, any-and_false p xs)

  pub any-filter_le : (p : A → Bool) (xs : List A) → any q (filter p xs) ≡ true → any q xs ≡ true
  any-filter_le p [] h = cc
  any-filter_le p (x ∷ xs) h = ground (arith, any-filter_le p xs)

module _ (r : ℕ → Bool) where
  any-member : (s : ℕ) (ss : List ℕ) → any (λ x. x == s) ss ≡ true → (any r ss || r s) ≡ any r ss
  any-member s [] h = cc
  any-member s (x ∷ ss) h = elim (Bool-cases (x == s)) [
    | inl e ↦
        subst (λ n. ((r n || any r ss) || r s) ≡ (r n || any r ss)) (sym (eq_of_== x s e))
          (or_absorb (r s) (any r ss))
    | inr e ↦
        let later : any (λ y. y == s) ss ≡ true = ground arith in
        or_assoc (r x) (any r ss) (r s) ∙ ap (λ b. r x || b) (any-member s ss later)
  ]

  pub any-add : (s : ℕ) (ss : List ℕ) → any r (add s ss) ≡ (any r ss || r s)
  any-add s ss = elim (Bool-cases (any (λ x. x == s) ss)) [
    | inl e ↦ rw e (sym (any-member s ss e))
    | inr e ↦ rw e (any-append r ss (s ∷ []) ∙ ap (λ b. any r ss || b) (or_false (r s)))
  ]

pub is_empty-add : (s : ℕ) (ss : List ℕ) → is_empty (add s ss) ≡ false
is_empty-add s [] = refl
is_empty-add s (x ∷ ss) = elim (Bool-cases (any (λ y. y == s) (x ∷ ss))) [
  | inl e ↦ rw e refl
  | inr e ↦ rw e refl
]

pub has_socket-pairs : (u c : ℕ) (ss : List ℕ) → has_socket c (pairs u ss) ≡ any (λ s. s == c) ss
has_socket-pairs u c [] = refl
has_socket-pairs u c (s ∷ ss) = ap (λ b. (s == c) || b) (has_socket-pairs u c ss)

module _ (q : ℕ × ℕ → Bool) where
  pub any-pairs : (user : ℕ) (ss : List ℕ) → any q (pairs user ss) ≡ any (λ s. q (user, s)) ss
  any-pairs user [] = refl
  any-pairs user (s ∷ ss) = ap (λ b. q (user, s) || b) (any-pairs user ss)

  pub any-flatten-add_socket :
      (user socket : ℕ) (m : UserSockets)
      → any q (flatten (add_socket user socket m)) ≡ (any q (flatten m) || q (user, socket))
  unfolding add_socket
  any-flatten-add_socket user socket [] = or_false (q (user, socket))
  any-flatten-add_socket user socket ((u, ss) ∷ rest) = elim (Bool-cases (u == user)) [
    | inl e ↦ rw e (
        any-append q (pairs u (add socket ss)) (flatten rest)
        ∙ ap (λ b. b || any q (flatten rest))
            (any-pairs u (add socket ss)
              ∙ any-add (λ s. q (u, s)) socket ss
              ∙ ap (λ b. b || q (u, socket)) (sym (any-pairs u ss)))
        ∙ or_swap (any q (pairs u ss)) (q (u, socket)) (any q (flatten rest))
        ∙ ap (λ b. b || q (u, socket)) (sym (any-append q (pairs u ss) (flatten rest)))
        ∙ ap (λ n. any q (pairs u ss ++ flatten rest) || q (n, socket)) (eq_of_== u user e))
    | inr e ↦ rw e (
        any-append q (pairs u ss) (flatten (add_socket user socket rest))
        ∙ ap (λ b. any q (pairs u ss) || b) (any-flatten-add_socket user socket rest)
        ∙ sym (or_assoc (any q (pairs u ss)) (any q (flatten rest)) (q (user, socket)))
        ∙ ap (λ b. b || q (user, socket)) (sym (any-append q (pairs u ss) (flatten rest))))
  ]

  -- Connections without the socket do not change when it goes.
  any-without :
      (c : ℕ) (xs : Connections)
      → has_socket c xs ≡ false
      → any (λ p. q p && not (p.1 == c)) xs ≡ any q xs
  any-without c [] h = refl
  any-without c (x ∷ xs) h = ground (arith, any-without c xs)

  flatten-left :
      (u : ℕ) (left : List ℕ) (rest : UserSockets)
      → flatten (if is_empty left then rest else (u, left) ∷ rest) ≡ pairs u left ++ flatten rest
  flatten-left u [] rest = refl
  flatten-left u (s ∷ left) rest = refl

  any-pairs-left :
      (u c : ℕ) (ss : List ℕ)
      → any q (pairs u (filter (λ s. not (s == c)) ss))
        ≡ any (λ p. q p && not (p.1 == c)) (pairs u ss)
  any-pairs-left u c [] = refl
  any-pairs-left u c (s ∷ ss) = ground (arith, any-pairs-left u c ss)

  pub any-flatten-remove_socket :
      (c : ℕ) (m : UserSockets)
      → IsSeparate m
      → any q (flatten (remove_socket c m)) ≡ any (λ p. q p && not (p.1 == c)) (flatten m)
  unfolding remove_socket
  any-flatten-remove_socket c [] sep = refl
  any-flatten-remove_socket c ((u, ss) ∷ rest) (apart, sep) =
      let q' : ℕ × ℕ → Bool = λ p. q p && not (p.1 == c) in
      let left = filter (λ s. not (s == c)) ss in
      elim (Bool-cases (any (λ s. s == c) ss)) [
        | inl e ↦ rw e (
            ap (any q) (flatten-left u left rest)
            ∙ any-append q (pairs u left) (flatten rest)
            ∙ ap (λ b. b || any q (flatten rest)) (any-pairs-left u c ss)
            ∙ ap (λ b. any q' (pairs u ss) || b) (sym (any-without c (flatten rest) (apart c e)))
            ∙ sym (any-append q' (pairs u ss) (flatten rest)))
        | inr e ↦ rw e (
            any-append q (pairs u ss) (flatten (remove_socket c rest))
            ∙ ap (λ b. any q (pairs u ss) || b) (any-flatten-remove_socket c rest sep)
            ∙ ap (λ b. b || any q' (flatten rest))
                (sym (any-without c (pairs u ss) (has_socket-pairs u c ss ∙ e)))
            ∙ sym (any-append q' (pairs u ss) (flatten rest)))
      ]
