-- ===== src/Common/Tax.antt =====
-- common/utils/tax.util.ts: the tax of a taxable amount at a rate in hundredths of a percent.
pub mod Rounding
use kasirk_backend.Base.{
  ℕ, ◌+◌, ◌-◌, ◌*◌, ◌/◌, ◌≤◌, ◌<◌, ◌≡◌, refl, Bool, true, false, arith, if◌then◌else◌,
}

-- `tenants.tax_rate`, a Decimal(5,2): the digits of `toFixed(2)` without their point, which
-- `BigInt` reads as hundredths of a percent (11.00% is 1100). JavaScript numbers have `toFixed`
-- too; `plain` is a value without it, with what `Math.round(Number(v) * 100)` gives.
pub data TaxRate : Type 0 where
  fixed plain : ℕ → TaxRate

abbrev pub basis_points : TaxRate → ℕ
basis_points (fixed digits) = digits
basis_points (plain rounded) = rounded

pub record Taxed : Type 0 where
  pub tax : ℕ
  pub total : ℕ

unfoldable pub calculate_tax : Bool → TaxRate → ℕ → Taxed
calculate_tax false rate amount = record { tax = 0; total = amount }
calculate_tax true rate amount =
    let tax = (amount * basis_points rate + 5000) / 10000 in
    record { tax = tax; total = amount + tax }
