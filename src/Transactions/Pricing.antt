-- ===== src/Transactions/Pricing.antt =====
-- `checkout` of transactions.service.ts, the totals: subtotal, discount, tax, total and tender.
use kasirk_backend.Base.{ℕ, ◌-◌, ◌*◌, Bool, false, List, Option, none, some, ◌==◌, ltb, sum_by}
use kasirk_backend.Common.Errors.{
  Result, ok, bad_request, raise_if, ◌>>◌, discount_exceeds_subtotal, invalid_amount,
  total_not_positive, cash_underpayment,
}
use kasirk_backend.Common.Tax.{calculate_tax}
use kasirk_backend.Database.Rows.{Tenant}
use kasirk_backend.Transactions.Dto.{PaymentDto, max_safe_integer}
use kasirk_backend.Transactions.Catalog.{ValidatedItem}
use kasirk_backend.Transactions.Tender.{resolve_tender}

-- `money`: a value that a JavaScript number holds exactly.
unfoldable pub money : ℕ → Result ℕ
money value = raise_if (ltb max_safe_integer value) (bad_request invalid_amount) >> ok value

abbrev pub line_subtotal : ValidatedItem → ℕ
line_subtotal i = i.effective_price * i.quantity

pub record Totals : Type 0 where
  pub subtotal : ℕ
  pub discount : ℕ
  pub tax : ℕ
  pub total : ℕ
  pub tender : Option ℕ

-- `resolvedTender !== null && resolvedTender < total`
abbrev pub underpaid : Option ℕ → ℕ → Bool
underpaid none total = false
underpaid (some t) total = ltb t total

unfoldable pub price_sale : Tenant → List ValidatedItem → ℕ → PaymentDto → Result Totals
unfolding money
price_sale tenant items discount payment =
    let subtotal = sum_by line_subtotal items in
    let taxed = calculate_tax tenant.tax_enabled tenant.tax_rate (subtotal - discount) in
    let tender = resolve_tender payment in
    do
      raise_if (ltb subtotal discount) (bad_request discount_exceeds_subtotal)
      money subtotal
      money taxed.tax
      money taxed.total
      raise_if (taxed.total == 0) (bad_request total_not_positive)
      raise_if (underpaid tender taxed.total) (bad_request cash_underpayment)
      ok (record {
        subtotal = subtotal;
        discount = discount;
        tax = taxed.tax;
        total = taxed.total;
        tender = tender;
      })
