-- ===== src/Investment/Valuation.antt =====
-- investment.service.ts: what an investment is worth. Values are counted in millionths of the
-- currency's unit: hundredths of a unit times ten-thousandths of a price.
pub mod Rounding
use nexapay_fintech_super_ap.Common.{ℕ, ◌+◌, ◌-◌, ◌*◌, ◌/◌, Option, none, some, leb, if◌then◌else◌}
use nexapay_fintech_super_ap.Common.Int.{ℤ, pos, neg}
use nexapay_fintech_super_ap.Investment.Entities.{ProductEntity, Investment}

-- `Number(expectedReturn) / 100 + 1`, and 1 for a product that is not there.
abbrev pub unit_price : Option ProductEntity → ℕ
unit_price none = 10000
unit_price (some p) = 10000 + p.expected_return

abbrev pub current_value : Investment → Option ProductEntity → ℕ
current_value i product = i.units * unit_price product

-- `Math.round(x * 100) / 100` of an exact difference, to whole cents, half a cent up.
abbrev pub round_difference : ℕ → ℕ → ℤ
round_difference a b =
    if leb b (a + 5000) then pos ((a + 5000 - b) / 10000) else neg ((b - a + 4999) / 10000)

-- The value less the amount, in cents.
abbrev pub returns_of : Investment → Option ProductEntity → ℤ
returns_of i product = round_difference (current_value i product) (10000 * i.amount)

-- With the unit price 100 · (1 + rate), to hundredths of a unit.
unfoldable pub calculate_units : ℕ → ProductEntity → ℕ
calculate_units amount product =
    let price = 10000 + product.expected_return in (200 * amount + price) / (2 * price)
