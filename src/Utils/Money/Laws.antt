-- ===== src/Utils/Money/Laws.antt =====
-- money.ts: `subtract` after `add`.
use nexapay_fintech_super_ap.Common.{
  or_else, subst, ℕ, zero, suc, ◌+◌, ◌≡◌, refl, sym, ap, ◌∙◌, Bool, true, false, none, some, ◌==◌,
  arith, if◌then◌else◌,
}
use nexapay_fintech_super_ap.Common.Int.{ℤ, pos, negsuc, pos_part, neg_part}
use nexapay_fintech_super_ap.Utils.Money.{Money, difference, ◌+ℤ◌, ◌-ℤ◌, add, subtract}
use native.Mathlib.Nat.{add-zero, add-suc}

-- The parts of a difference are as far apart as the numbers.
difference_parts : (a b : ℕ) → pos_part (difference a b) + b ≡ neg_part (difference a b) + a
difference_parts a zero = omega arith
difference_parts zero (suc b) = omega arith
difference_parts (suc a) (suc b) = omega (arith, difference_parts a b)

difference_shift : (a b c : ℕ) → difference (a + c) (b + c) ≡ difference a b
difference_shift a b zero = rw (add-zero a, add-zero b) refl
difference_shift a b (suc c) = rw (add-suc a c, add-suc b c) (difference_shift a b c)

difference_cross : (a b c d : ℕ) → a + d ≡ c + b → difference a b ≡ difference c d
difference_cross a b c d e =
    let swap : b + d ≡ d + b = omega arith in
    sym (difference_shift a b d)
    ∙ ap (λ n. difference n (b + d)) e
    ∙ ap (difference (c + b)) swap
    ∙ difference_shift c d b

difference_self : (x : ℤ) → difference (pos_part x) (neg_part x) ≡ x
difference_self (pos n) = refl
difference_self (negsuc n) = refl

sub-add : (x y : ℤ) → (x +ℤ y) -ℤ y ≡ x
sub-add x y =
    let s = x +ℤ y in
    let parts : pos_part s + (neg_part x + neg_part y) ≡ neg_part s + (pos_part x + pos_part y) =
      difference_parts (pos_part x + pos_part y) (neg_part x + neg_part y) in
    difference_cross (pos_part s + neg_part y) (neg_part s + pos_part y) (pos_part x) (neg_part x)
      (omega arith)
    ∙ difference_self x

-- The currencies of a sum that is there are the same.
same_currency :
    (b : Bool) (m sum : Money) → (if b then some m else none) ≡ some sum → (b ≡ true) × (m ≡ sum)
same_currency true m sum h = (refl, ap (λ o. or_else o m) h)
same_currency false m sum h = cc

-- What is added to an amount of the same currency can be taken away again, whatever the signs: the
-- amount is the old one.
pub subtract-add : (m other sum : Money) → add m other ≡ some sum → subtract sum other ≡ some m
unfolding add subtract
subtract-add m other sum h =
    let (same, total) =
      same_currency (m.currency == other.currency)
        (record { amount = m.amount +ℤ other.amount; currency = m.currency }) sum h in
    subst (λ z. subtract z other ≡ some m) total
      (ap
          (λ b.
            if b
            then some (record {
              amount = (m.amount +ℤ other.amount) -ℤ other.amount;
              currency = m.currency;
            })
            else none)
          same
        ∙ ap (λ a. some (record { amount = a; currency = m.currency }))
            (sub-add m.amount other.amount))
