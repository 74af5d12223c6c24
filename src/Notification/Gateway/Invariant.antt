-- ===== src/Notification/Gateway/Invariant.antt =====
-- notification.gateway.ts: the map keeps every socket in one set, and no set empty.
use nexapay_fintech_super_ap.Common.{
  eq_of_==, ℕ, ◌≡◌, refl, sym, ap, ◌∙◌, Bool, true, false, not, ◌||◌, List, [], ◌∷◌, ◌==◌, any,
  filter, map, Bool-cases, inl, inr, arith,
}
use nexapay_fintech_super_ap.Notification.Gateway.{UserSockets, add_socket, is_empty, remove_socket}
use nexapay_fintech_super_ap.Notification.Gateway.Sockets.{
  any-pairs, has_socket, pairs, flatten, IsSeparate, IsFilled, any-append, any-add, any-and_false,
  any-filter_le, has_socket-pairs, is_empty-add, any-flatten-add_socket, any-flatten-remove_socket,
}

-- A socket that is in no set of the map is not in the first, and not in the others.
parts_false : (a b : Bool) → (a || b) ≡ false → (a ≡ false) × (b ≡ false)
parts_false true b e = cc
parts_false false b e = (refl, e)

fresh_parts :
    (c u : ℕ) (ss : List ℕ) (rest : UserSockets)
    → has_socket c (flatten ((u, ss) ∷ rest)) ≡ false
    → (any (λ s. s == c) ss ≡ false) × (has_socket c (flatten rest) ≡ false)
fresh_parts c u ss rest e =
    let (a, b) =
      parts_false (has_socket c (pairs u ss)) (has_socket c (flatten rest))
        (sym (any-append (λ p. p.1 == c) (pairs u ss) (flatten rest)) ∙ e) in
    (sym (has_socket-pairs u c ss) ∙ a, b)

-- An element of a list that `c` is not in is not `c`.
differs :
    (c s : ℕ) (ss : List ℕ)
    → any (λ x. x == c) ss ≡ false
    → any (λ x. x == s) ss ≡ true
    → (c == s) ≡ false
differs c s [] e h = cc
differs c s (x ∷ ss) e h = ground (arith, differs c s ss)

pub add_socket-IsSeparate :
    (user c : ℕ) (m : UserSockets)
    → has_socket c (flatten m) ≡ false
    → IsSeparate m
    → IsSeparate (add_socket user c m)
unfolding add_socket
add_socket-IsSeparate user c [] fresh sep = (λ s h. refl, tt)
add_socket-IsSeparate user c ((u, ss) ∷ rest) fresh (apart, sep) =
    let (new, later) = fresh_parts c u ss rest fresh in
    elim (Bool-cases (u == user)) [
      | inl e ↦ rw e (
        λ s h. elim (Bool-cases (any (λ x. x == s) ss)) [
          | inl was ↦ apart s was
          | inr n ↦
              let same : (c == s) ≡ true =
                sym (ap (λ b. b || (c == s)) n) ∙ sym (any-add (λ x. x == s) c ss) ∙ h in
              ap (λ n. has_socket n (flatten rest)) (sym (eq_of_== c s same)) ∙ later
        ],
        sep,
      )
      | inr e ↦ rw e (
        λ s h.
            any-flatten-add_socket (λ p. p.1 == s) user c rest
            ∙ ap (λ b. b || (c == s)) (apart s h)
            ∙ differs c s ss new h,
        add_socket-IsSeparate user c rest later sep,
      )
    ]

pub add_socket-IsFilled :
    (user c : ℕ) (m : UserSockets) → IsFilled m → IsFilled (add_socket user c m)
unfolding add_socket
add_socket-IsFilled user c [] filled = (refl, tt)
add_socket-IsFilled user c ((u, ss) ∷ rest) (first, filled) = elim (Bool-cases (u == user)) [
  | inl e ↦ rw e (is_empty-add c ss, filled)
  | inr e ↦ rw e (first, add_socket-IsFilled user c rest filled)
]

pub remove_socket-IsSeparate :
    (c : ℕ) (m : UserSockets) → IsSeparate m → IsSeparate (remove_socket c m)
unfolding remove_socket
remove_socket-IsSeparate c [] sep = sep
remove_socket-IsSeparate c ((u, ss) ∷ rest) (apart, sep) =
    let left = filter (λ s. not (s == c)) ss in
    elim (Bool-cases (any (λ s. s == c) ss)) [
      | inl e ↦ rw e (elim (Bool-cases (is_empty left)) [
        | inl none_left ↦ rw none_left sep
        | inr some_left ↦
            rw some_left
              (λ s h. apart s (any-filter_le (λ x. x == s) (λ x. not (x == c)) ss h), sep)
      ])
      | inr e ↦ rw e (
        λ s h.
            any-flatten-remove_socket (λ p. p.1 == s) c rest sep
            ∙ any-and_false (λ p. p.1 == s) (λ p. not (p.1 == c)) (flatten rest) (apart s h),
        remove_socket-IsSeparate c rest sep,
      )
    ]

pub remove_socket-IsFilled : (c : ℕ) (m : UserSockets) → IsFilled m → IsFilled (remove_socket c m)
unfolding remove_socket
remove_socket-IsFilled c [] filled = filled
remove_socket-IsFilled c ((u, ss) ∷ rest) (first, filled) =
    let left = filter (λ s. not (s == c)) ss in
    elim (Bool-cases (any (λ s. s == c) ss)) [
      | inl e ↦ rw e (elim (Bool-cases (is_empty left)) [
        | inl none_left ↦ rw none_left filled
        | inr some_left ↦ rw some_left (some_left, filled)
      ])
      | inr e ↦ rw e (first, remove_socket-IsFilled c rest filled)
    ]

any_same : (b : Bool) (ss : List ℕ) → is_empty ss ≡ false → any (λ _. b) ss ≡ b
any_same b [] h = cc
any_same true (s ∷ ss) h = refl
any_same false (s ∷ []) h = refl
any_same false (s ∷ t ∷ ss) h = any_same false (t ∷ ss) refl

-- The users of the map are those of its connections.
pub users-flatten :
    (user : ℕ) (m : UserSockets)
    → IsFilled m
    → any (λ u. u == user) (map (λ e. e.0) m) ≡ any (λ p. p.0 == user) (flatten m)
users-flatten user [] filled = refl
users-flatten user ((u, ss) ∷ rest) (first, filled) =
    ap (λ b. (u == user) || b) (users-flatten user rest filled)
    ∙ ap (λ b. b || any (λ p. p.0 == user) (flatten rest))
        (sym (any_same (u == user) ss first) ∙ sym (any-pairs (λ p. p.0 == user) u ss))
    ∙ sym (any-append (λ p. p.0 == user) (pairs u ss) (flatten rest))
