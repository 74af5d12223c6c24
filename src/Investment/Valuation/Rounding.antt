-- ===== src/Investment/Valuation/Rounding.antt =====
-- investment.service.ts, `calculateUnits` and the rounding of returns.
use nexapay_fintech_super_ap.Common.{
  ◌<◌, ℕ, zero, suc, ◌+◌, ◌-◌, ◌*◌, ◌/◌, ◌≤◌, ◌≡◌, refl, some, leb, arith, Bool-cases, inl, inr,
}
use native.Mathlib.Nat.{mul-div-le, lt-mul-div-succ}
use nexapay_fintech_super_ap.Common.Int.{neg, neg_part}
use nexapay_fintech_super_ap.Investment.Entities.{ProductEntity}
use nexapay_fintech_super_ap.Investment.Valuation.{unit_price, round_difference, calculate_units}

-- The units of an amount are worth a hundredth of it, and half a hundredth of a unit at most.
pub calculate_units_le :
    (amount : ℕ) (p : ProductEntity)
    → 2 * (calculate_units amount p * unit_price (some p)) ≤ 200 * amount + unit_price (some p)
unfolding calculate_units
calculate_units_le amount p =
    let price = 10000 + p.expected_return in
    let u = (200 * amount + price) / (2 * price) in
    let h : 2 * price * u ≤ 200 * amount + price = mul-div-le (200 * amount + price) (2 * price) in
    omega arith

neg_part-neg : (n : ℕ) → neg_part (neg n) ≡ n
neg_part-neg zero = refl
neg_part-neg (suc n) = refl

-- A loss is rounded by half a cent at most.
pub round_difference_loss : (a b : ℕ) → b ≤ a + (10000 * neg_part (round_difference a b) + 5000)
round_difference_loss a b = elim (Bool-cases (leb b (a + 5000))) [
  | inl e ↦ rw e (ground arith)
  | inr e ↦
      let n = (b - a + 4999) / 10000 in
      let h : b - a + 4999 < 10000 * (n + 1) =
        lt-mul-div-succ (b - a + 4999) {b = 10000} (omega arith) in
      rw e (rw (neg_part-neg n) (omega arith))
]
