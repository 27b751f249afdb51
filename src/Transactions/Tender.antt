-- ===== src/Transactions/Tender.antt =====
-- The payment of a request: `assertPaymentShape` and `resolveTender` of transactions.service.ts.
pub mod Shape
use kasirk_backend.Base.{
  ℕ, ◌≤◌, ◌≡◌, refl, Bool, true, false, ◌&&◌, ◌||◌, not, List, [], ◌∷◌, Option, none, some, arith,
  if◌then◌else◌, ◌==◌, leb,
}
use kasirk_backend.Common.Errors.{
  Result, ok, err, http, bad_request, raise_if, ◌>>◌, payment_field_not_allowed,
  cash_amount_received_required, invalid_input,
}
use kasirk_backend.Database.Rows.{PaymentMethod, cash, qris, edc}
use kasirk_backend.Transactions.Dto.{
  PaymentDto, CheckoutDto, CheckoutMode, v1, legacy_sync, is_present, valid_checkout,
  plain_to_instance, get_or,
}

unfoldable pub assert_payment_shape : PaymentDto → Result (Unit {0})
assert_payment_shape p =
    raise_if p.has_change_amount (bad_request payment_field_not_allowed) >> elim p.method [
      | cash ↦
          raise_if (not (is_present p.amount) && not (is_present p.amount_received))
            (bad_request cash_amount_received_required)
          >> raise_if (is_present p.amount && is_present p.amount_received)
              (bad_request payment_field_not_allowed)
      | _ ↦
          raise_if (is_present p.amount || is_present p.amount_received)
            (bad_request payment_field_not_allowed)
    ]

-- `BigInt((payment.amount_received ?? payment.amount)!)` for cash, else null. `BigInt(undefined)`
-- would raise; `assertPaymentShape` rules it out, and the model gives 0.
unfoldable pub resolve_tender : PaymentDto → Option ℕ
resolve_tender p = elim p.method [
  | cash ↦ some (get_or p.amount_received (get_or p.amount 0))
  | _ ↦ none
]

-- `assertCheckoutInput`: `valid_checkout` measures the trimmed notes of its argument. An invalid
-- request whose payment is an object raises the error of its payment's shape, if there is one,
-- before the general one.
unfoldable pub assert_checkout_input : CheckoutDto → CheckoutMode → Result CheckoutDto
unfolding assert_payment_shape plain_to_instance
assert_checkout_input d legacy_sync = ok (plain_to_instance d)
assert_checkout_input d v1 =
    if valid_checkout d
    then ok (plain_to_instance d)
    else assert_payment_shape d.payment >> err (http (bad_request invalid_input))
