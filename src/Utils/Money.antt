-- ===== src/Utils/Money.antt =====
-- money.ts: `Money`. Amounts are integers of the smallest unit, and factors are whole; currencies,
-- which the constructor turns to upper case, are numbers. `format` only calls the platform.
pub mod Laws
use nexapay_fintech_super_ap.Common.{
  ℕ, zero, suc, ◌+◌, ◌-◌, ◌*◌, Bool, true, false, ◌&&◌, Option, none, some, ◌==◌, ltb, leb,
  if◌then◌else◌,
}
use nexapay_fintech_super_ap.Common.Int.{ℤ, pos, negsuc, neg, pos_part, neg_part}

-- a - b, as an integer.
abbrev pub difference : ℕ → ℕ → ℤ
difference a zero = pos a
difference zero (suc b) = negsuc b
difference (suc a) (suc b) = difference a b

infixl 20 ◌+ℤ◌ ◌-ℤ◌
abbrev pub ◌+ℤ◌ : ℤ → ℤ → ℤ
a +ℤ b = difference (pos_part a + pos_part b) (neg_part a + neg_part b)

abbrev pub ◌-ℤ◌ : ℤ → ℤ → ℤ
a -ℤ b = difference (pos_part a + neg_part b) (neg_part a + pos_part b)

abbrev pub times : ℤ → ℕ → ℤ
times a n = difference (pos_part a * n) (neg_part a * n)

-- `===` and `>`
abbrev pub same_amount : ℤ → ℤ → Bool
same_amount a b = (pos_part a == pos_part b) && (neg_part a == neg_part b)

abbrev pub greater : ℤ → ℤ → Bool
greater a b = ltb (pos_part b + neg_part a) (pos_part a + neg_part b)

pub record Money : Type 0 where
  pub amount : ℤ
  pub currency : ℕ

-- `checkCurrency` throws, which is `none`.
abbrev pub in_currency : {A : Type 0} → Money → Money → A → Option A
in_currency m other result = if m.currency == other.currency then some result else none

pub add : Money → Money → Option Money
add m other =
    in_currency m other (record { amount = m.amount +ℤ other.amount; currency = m.currency })

pub subtract : Money → Money → Option Money
subtract m other =
    in_currency m other (record { amount = m.amount -ℤ other.amount; currency = m.currency })

pub multiply : Money → ℕ → Money
multiply m factor = record { amount = times m.amount factor; currency = m.currency }

pub equals : Money → Money → Bool
equals m other = same_amount m.amount other.amount && m.currency == other.currency

pub is_greater_than : Money → Money → Option Bool
is_greater_than m other = in_currency m other (greater m.amount other.amount)
