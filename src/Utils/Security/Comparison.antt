-- ===== src/Utils/Security/Comparison.antt =====
-- security.ts, `constantTimeCompare` against equality.
use nexapay_fintech_super_ap.Common.{
  if◌then◌else◌, not, ℕ, ◌≡◌, refl, sym, ap, ◌∙◌, ◌↔◌, Bool, true, false, List, [], ◌∷◌, ◌==◌,
  length, eq_of_==, ==_refl, arith,
}
use Prim.Native.Nat.{bit_or, bit_xor}
use nexapay_fintech_super_ap.Utils.Security.{differences, constant_time_compare}
use nexapay_fintech_super_ap.Utils.Security.Bits.{bit_xor_zero, bit_xor_self, bit_or_zero}

differences_zero :
    (a b : List ℕ) (result : ℕ)
    → length a ≡ length b
    → differences a b result ≡ 0
    → (result ≡ 0) × (a ≡ b)
unfolding differences
differences_zero [] [] result same h = (h, refl)
differences_zero [] (y ∷ b) result same h = absurd (omega arith)
differences_zero (x ∷ a) [] result same h = absurd (omega arith)
differences_zero (x ∷ a) (y ∷ b) result same h =
    let (total, rest) = differences_zero a b (bit_or result (bit_xor x y)) (omega arith) h in
    let (before, first) = bit_or_zero result (bit_xor x y) total in
    (before, ap (λ z. z ∷ a) (bit_xor_zero x y first) ∙ ap (λ l. y ∷ l) rest)

differences_self : (a : List ℕ) → differences a a 0 ≡ 0
unfolding differences
differences_self [] = refl
differences_self (x ∷ a) = rw (bit_xor_self x) (differences_self a)

compared :
    (same : Bool) (n : ℕ) → (if not same then false else n == 0) ≡ true → (same ≡ true) × (n ≡ 0)
compared true n h = (refl, eq_of_== n 0 h)
compared false n h = cc

-- Two strings are found the same exactly when they are, of whatever length.
pub constant_time_compare_iff : (a b : List ℕ) → (constant_time_compare a b ≡ true) ↔ (a ≡ b)
unfolding constant_time_compare
constant_time_compare_iff a b = (
  λ h.
      let (same, zero) = compared (length a == length b) (differences a b 0) h in
      (differences_zero a b 0 (eq_of_== (length a) (length b) same) zero).1,
  λ h. rw (sym h) (rw (==_refl (length a)) (rw (differences_self a) refl)),
)
