-- ===== src/Tests/Figures.antt =====
-- A stock adjustment of the sample shop, and the summary of its shift.
use kasirk_backend.Base.{ℕ, ◌+◌, ◌≡◌, ◌++◌, refl, [], ◌∷◌, none, some, select, sum_by, length}
use kasirk_backend.Base.Int.{pos}
use kasirk_backend.Common.Errors.{ok}
use kasirk_backend.Database.Rows.{
  Db, CashierSession, StockMovement, StockAdjustment, open_session, deduct,
}
use kasirk_backend.Shifts.Summary.{
  ShiftSummary, derive_summary, of_session, sales_payments, sales_items,
}
use kasirk_backend.Shifts.Summary.Figures.{sold_quantity, derive_summary-figures}
use kasirk_backend.Stock.{
  AdjustmentDto, create_adjustment, check_adjustment, read_stock, movement_row, default_reason,
}
use kasirk_backend.Stock.Conservation.{held, put_in, IsMovement, taken_out, create_adjustment_stock}
use kasirk_backend.Tests.Sample.{shop, seller_actor}
use kasirk_backend.Tests.Receipt.{shop_after}

abbrev deduction : AdjustmentDto
deduction = record {
  outlet_id = 3;
  product_id = 10;
  adjustment_type = deduct;
  quantity = 3;
  reason = none;
}

abbrev after_deduction : Db
after_deduction = record shop {
  product_stocks =
      record { outlet_id = 3; product_id = 10; stock = 5 }
      ∷ record { outlet_id = 3; product_id = 11; stock = 5 }
      ∷ record { outlet_id = 9; product_id = 10; stock = 7 }
      ∷ [];
  stock_adjustments =
      record {
        id = 100;
        tenant_id = 1;
        outlet_id = 3;
        product_id = 10;
        user_id = 2;
        type = deduct;
        quantity = 3;
        reason = default_reason;
      }
      ∷ [];
  stock_movements = movement_row seller_actor deduction 100 ∷ [];
  next_id = 101;
}

deduction_run :
    create_adjustment seller_actor deduction shop
    ≡ ok (record { outlet_id = 3; product_id = 10; stock = 5 }, after_deduction)
unfolding create_adjustment check_adjustment read_stock
deduction_run = refl

create_adjustment_stock_example :
    (held seller_actor deduction shop after_deduction.product_stocks + taken_out deduction
      ≡ held seller_actor deduction shop shop.product_stocks + put_in deduction)
    × ((a : StockAdjustment) × (after_deduction.stock_adjustments ≡ [] ++ a ∷ [])
        × (a.tenant_id ≡ 1)
        × (a.outlet_id ≡ 3)
        × (a.product_id ≡ 10)
        × (a.user_id ≡ 2)
        × (a.type ≡ deduction.adjustment_type)
        × (a.quantity ≡ deduction.quantity)
        × (m : StockMovement) × (after_deduction.stock_movements ≡ [] ++ m ∷ [])
        × IsMovement seller_actor deduction a.id m)
create_adjustment_stock_example =
    create_adjustment_stock seller_actor deduction shop after_deduction
      (record { outlet_id = 3; product_id = 10; stock = 5 }) deduction_run

abbrev shift : CashierSession
shift = record {
  id = 4;
  tenant_id = 1;
  outlet_id = 3;
  user_id = 2;
  opening_cash = none;
  closing_cash = none;
  expected_cash = none;
  difference = none;
  status = open_session;
  opened_at = 90;
  closed_at = none;
}

abbrev takings : ShiftSummary
takings = record {
  shift_id = 4;
  status = open_session;
  transaction_count = 1;
  sales = pos 32190;
  cash_total = pos 32190;
  qris_total = pos 0;
  edc_total = pos 0;
  products =
      record { product_id = 10; product_name = some (67 ∷ []); quantity = 2 }
      ∷ record { product_id = 11; product_name = some (66 ∷ []); quantity = 1 }
      ∷ [];
}

shift_summed : derive_summary 1 shift shop_after ≡ ok takings
unfolding derive_summary
shift_summed = refl

derive_summary-figures_example :
    (in_cash : ℕ) × (in_qris : ℕ) × (in_edc : ℕ) × (pos 32190 ≡ pos in_cash)
    × (pos 0 ≡ pos in_qris)
    × (pos 0 ≡ pos in_edc)
    × (in_cash + in_qris + in_edc
        ≡ sum_by
            (λ p. p.amount)
            (sales_payments 1
              (select (of_session 1 4) shop_after.transactions)
              shop_after.payments))
    × (pos 32190 ≡ pos (sum_by (λ t. t.total) (select (of_session 1 4) shop_after.transactions)))
    × (1 ≡ length (select (of_session 1 4) shop_after.transactions))
    × (sold_quantity takings.products
        ≡ sum_by
            (λ i. i.quantity)
            (sales_items 1
              (select (of_session 1 4) shop_after.transactions)
              shop_after.transaction_items))
derive_summary-figures_example = derive_summary-figures 1 shift shop_after takings shift_summed
