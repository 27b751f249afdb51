-- ===== src/Common/Tax/Rounding.antt =====
-- The rounding of `calculateTax`.
use kasirk_backend.Base.{ℕ, ◌+◌, ◌*◌, ◌≤◌, ◌<◌, ◌≡◌, refl, true, arith}
use kasirk_backend.Common.Tax.{TaxRate, basis_points, calculate_tax}

-- The tax of an enabled tenant is the exact amount rounded to the nearest unit, a half going up,
-- and the total is the amount and the tax.
pub tax_half_up :
    (rate : TaxRate) (amount : ℕ)
    → let t = calculate_tax true rate amount in
      (10000 * t.tax ≤ amount * basis_points rate + 5000)
      × (amount * basis_points rate < 10000 * t.tax + 5000)
      × (t.total ≡ amount + t.tax)
unfolding calculate_tax
tax_half_up rate amount = (omega arith, omega arith, refl)
