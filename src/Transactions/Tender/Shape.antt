-- ===== src/Transactions/Tender/Shape.antt =====
-- `assertPaymentShape` beside the validator `PaymentTransportShape`.
use kasirk_backend.Base.{ℕ, ◌≡◌, Bool, true, false, ◌&&◌, not, Option, arith}
use kasirk_backend.Common.Errors.{Result, ok, err}
use kasirk_backend.Database.Rows.{PaymentMethod}
use kasirk_backend.Transactions.Dto.{PaymentDto, transport_shape}
use kasirk_backend.Transactions.Tender.{assert_payment_shape}

abbrev pub is_ok {ℓ} : {A : Type ℓ} → Result A → Bool
is_ok (ok _) = true
is_ok (err _) = false

shape_by_method :
    (m : PaymentMethod) (a r : Option ℕ) (c : Bool)
    → is_ok (
        assert_payment_shape
          (record { method = m; amount = a; amount_received = r; has_change_amount = c }))
      ≡ (transport_shape
            (record { method = m; amount = a; amount_received = r; has_change_amount = c })
          && not c)
unfolding assert_payment_shape transport_shape
shape_by_method m a r c = ground arith

-- AssertPaymentShape accepts exactly the payments of the shape that PaymentTransportShape
-- describes and that have no property change_amount.
pub shape_accepted :
    (p : PaymentDto)
    → is_ok (assert_payment_shape p) ≡ (transport_shape p && not p.has_change_amount)
shape_accepted p = shape_by_method p.method p.amount p.amount_received p.has_change_amount
