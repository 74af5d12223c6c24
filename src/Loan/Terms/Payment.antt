-- ===== src/Loan/Terms/Payment.antt =====
-- loan.service.ts, `calculateMonthlyPayment`: the monthly payment and the principal.
use nexapay_fintech_super_ap.Common.{
  ℕ, zero, suc, ◌+◌, ◌-◌, ◌*◌, ◌/◌, ◌^◌, ◌≤◌, ◌<◌, ◌≡◌, ap, arith,
}
use native.Mathlib.Nat.{
  mul-le-mul_left, le_of_lt, mul-pos, le_of_mul-le-mul_left, lt-mul-div-succ, pow-zero, pow-succ',
  pow-lt-pow_left,
}
use nexapay_fintech_super_ap.Loan.Entities.{TermType, short, medium, long}
use nexapay_fintech_super_ap.Loan.Terms.{calculate_monthly_payment, rate_inverse, cent}

-- One more month.
growth_step :
    (m n a b : ℕ) → m * a ≤ n * a + m * b → m * (suc m * a) ≤ suc n * (suc m * a) + m * (m * b)
growth_step m n a b h = omega (arith, mul-le-mul_left m h)

-- The interest of n months at the rate 1/m is at most n/m of what is owed with it.
growth : (m n : ℕ) → m * suc m ^ n ≤ n * suc m ^ n + m * m ^ n
growth m zero = rw (pow-zero m) (rw (pow-zero (suc m)) (omega arith))
growth m (suc n) =
    rw (pow-succ' m n) (rw (pow-succ' (suc m) n) (growth_step m n (suc m ^ n) (m ^ n) (growth m n)))

-- The quotient rounded half up is at least the exact one less a half.
round_bound : (num den : ℕ) → 0 < den → 2 * num < 2 * den * ((2 * num + den) / (2 * den)) + den
round_bound num den h =
    let q = (2 * num + den) / (2 * den) in
    omega (arith, lt-mul-div-succ (2 * num + den) {b = 2 * den} (omega arith))

-- From the two bounds, with d for m · (a - b).
total_bound :
    (principal n a d q : ℕ)
    → 0 < d
    → d ≤ n * a
    → 2 * (principal * a) < 2 * (cent * d) * q + cent * d
    → 2 * principal ≤ 2 * (cent * q * n) + cent * n
total_bound principal n a d q pos small rounding =
    le_of_mul-le-mul_left {k = d}
      (omega (arith, mul-le-mul_left (2 * principal) small, mul-le-mul_left n (le_of_lt rounding)))
      pos

difference : (m n a b : ℕ) → b < a → m * a ≤ n * a + m * b → m * (a - b) ≤ n * a
difference m n a b h k =
    let e : a ≡ a - b + b = omega (arith, h) in omega (arith, k, ap (λ x. m * x) e)

rate_inverse-positive : (rate : TermType) → 0 < rate_inverse rate
rate_inverse-positive short = omega arith
rate_inverse-positive medium = omega arith
rate_inverse-positive long = omega arith

-- The payments of a loan of at least one month, together with half a cent for each of them, cover
-- the principal, at every rate of the table.
pub calculate_monthly_payment_covers :
    (principal : ℕ) (rate : TermType) (term_months : ℕ)
    → 0 < term_months
    → 2 * principal
      ≤ 2 * (calculate_monthly_payment principal rate term_months * term_months)
        + cent * term_months
unfolding calculate_monthly_payment
calculate_monthly_payment_covers principal rate term_months pos =
    let m = rate_inverse rate in
    let a = suc m ^ term_months in
    let b = m ^ term_months in
    let m_pos = rate_inverse-positive rate in
    let b_lt : b < a =
      pow-lt-pow_left {n = term_months} (omega arith) (λ e. omega (arith, pos, e)) in
    let d = m * (a - b) in
    let d_pos : 0 < d = mul-pos m_pos (omega (arith, b_lt)) in
    let small : d ≤ term_months * a = difference m term_months a b b_lt (growth m term_months) in
    total_bound principal term_months a d ((2 * (principal * a) + cent * d) / (2 * (cent * d)))
      d_pos small (round_bound (principal * a) (cent * d) (omega arith))
