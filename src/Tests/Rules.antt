-- ===== src/Tests/Rules.antt =====
-- The theorems on tax, lines, payments, held orders and shifts, at concrete inputs.
use kasirk_backend.Base.{
  ◌+◌, ◌*◌, ◌≤◌, ◌<◌, ◌≡◌, ◌&&◌, ◌==◌, refl, true, List, [], ◌∷◌, none, some, find, select, sum_by,
  count_where, All, arith,
}
use kasirk_backend.Base.Text.{IdText, uuid}
use kasirk_backend.Common.Errors.{ok, err, http, conflict, shift_already_closed}
use kasirk_backend.Common.Tax.{fixed, calculate_tax}
use kasirk_backend.Common.Tax.Rounding.{tax_half_up}
use kasirk_backend.Database.Rows.{Db, CashierSession, open_session, closed_session}
use kasirk_backend.Transactions.Dto.{transport_shape, line_dto}
use kasirk_backend.Transactions.Tender.{assert_payment_shape}
use kasirk_backend.Transactions.Tender.Shape.{is_ok, shape_accepted}
use kasirk_backend.Transactions.Catalog.{Catalog, ValidatedItem, validate_line, selections}
use kasirk_backend.Transactions.Catalog.Rules.{IsChoice, validate_line-rules}
use kasirk_backend.HeldOrders.Lifecycle.{HeldOperation, create_op, cancel_op, run, run-Evolves}
use kasirk_backend.HeldOrders.Evolution.{Evolves}
use kasirk_backend.Shifts.Access.{ShiftActor, actor_context}
use kasirk_backend.Shifts.Summary.{derive_summary}
use kasirk_backend.Shifts.Session.{open_shift}
use kasirk_backend.Shifts.Read.{ShiftResponse, none_mode, check_open, to_response}
use kasirk_backend.HeldOrders.Access.{HeldActor}
use kasirk_backend.Common.Roles.{cashier}
use kasirk_backend.Shifts.Close.{
  close_shift, check_close, check_no_held, is_shift, close_row, blocks_close,
}
use kasirk_backend.Shifts.Rules.{IsSingleOpen, open_shift-IsSingleOpen}
use kasirk_backend.Shifts.Closing.{IsClosable, close_shift-closes}
use kasirk_backend.Tests.Sample.{shop, two_coffees, cash_payment, coffee}

tax_half_up_example :
    (10000 * (calculate_tax true (fixed 1100) 29000).tax ≤ 29000 * 1100 + 5000)
    × (29000 * 1100 < 10000 * (calculate_tax true (fixed 1100) 29000).tax + 5000)
    × ((calculate_tax true (fixed 1100) 29000).total
        ≡ 29000 + (calculate_tax true (fixed 1100) 29000).tax)
tax_half_up_example = tax_half_up (fixed 1100) 29000

shape_accepted_example :
    is_ok (assert_payment_shape cash_payment) ≡ (transport_shape cash_payment && true)
shape_accepted_example = shape_accepted cash_payment

abbrev menu : Catalog
menu = record {
  products = coffee ∷ [];
  assignments =
      record {
        product_id = 10;
        modifier_group_id = 20;
        required = true;
        is_single_selection = true;
        group_name = 71 ∷ [];
      }
      ∷ [];
  options =
      record {
        id = 21;
        tenant_id = 1;
        modifier_group_id = 20;
        name = 79 ∷ [];
        price_delta = 2000;
        is_active = true;
        display_order = 0;
      }
      ∷ [];
}

abbrev coffees : ValidatedItem
coffees = record {
  product = coffee;
  options =
      record {
        id = 21;
        modifier_group_id = 20;
        group_name = 71 ∷ [];
        option_name = 79 ∷ [];
        price_delta = 2000;
      }
      ∷ [];
  effective_price = 12000;
  quantity = 2;
  note = some (78 ∷ []);
}

coffees_valid : validate_line menu two_coffees ≡ ok coffees
unfolding validate_line
coffees_valid = refl

validate_line-rules_example :
    (coffees.product.id ≡ 10)
    × (coffees.quantity ≡ 2)
    × (coffees.effective_price ≡ coffee.price + sum_by (λ o. o.price_delta) coffees.options)
    × All
        (λ a. IsChoice a (selections a.modifier_group_id coffees.options))
        (select (λ a. a.product_id == 10) menu.assignments)
validate_line-rules_example = validate_line-rules menu two_coffees coffees coffees_valid

abbrev clerk : IdText
clerk = uuid (record { value = 2; casing = 0 })

abbrev firm : IdText
firm = uuid (record { value = 1; casing = 0 })

-- The shop before any shift, and with its shift closed.
abbrev morning : Db
morning = record shop { cashier_sessions = [] }

abbrev opened : Db
opened = record morning {
  cashier_sessions =
      record {
        id = 100;
        tenant_id = 1;
        outlet_id = 3;
        user_id = 2;
        opening_cash = none;
        closing_cash = none;
        expected_cash = none;
        difference = none;
        status = open_session;
        opened_at = 95;
        closed_at = none;
      }
      ∷ [];
  next_id = 101;
}

abbrev opening : ShiftResponse
opening = record {
  shift_id = 100;
  outlet_id = 3;
  user_id = 2;
  opening_cash = none;
  closing_cash = none;
  expected_cash = none;
  difference = none;
  status = open_session;
  opened_at = 95;
  closed_at = none;
  reconciliation_mode = none_mode;
}

shop_opened : open_shift clerk firm 3 morning ≡ ok (opening, opened)
unfolding open_shift check_open actor_context to_response
shop_opened = refl

morning-IsSingleOpen : IsSingleOpen morning
morning-IsSingleOpen t u = omega arith

open_shift-IsSingleOpen_example : IsSingleOpen opened
open_shift-IsSingleOpen_example =
    open_shift-IsSingleOpen clerk firm 3 morning opened opening morning-IsSingleOpen shop_opened

abbrev closed : Db
closed = record opened {
  cashier_sessions =
      record {
        id = 100;
        tenant_id = 1;
        outlet_id = 3;
        user_id = 2;
        opening_cash = none;
        closing_cash = none;
        expected_cash = none;
        difference = none;
        status = closed_session;
        opened_at = 95;
        closed_at = some 95;
      }
      ∷ [];
}

abbrev closing : ShiftResponse
closing = record opening { status = closed_session; closed_at = some 95 }

shop_closed : close_shift clerk firm 100 opened ≡ ok (closing, closed)
unfolding close_shift check_close actor_context check_no_held derive_summary to_response
shop_closed = refl

close_shift-closes_example :
    (actor : ShiftActor) × (s : CashierSession) × IsClosable clerk firm 100 opened actor s
    × (find (is_shift actor.tenant_id 100) closed.cashier_sessions ≡ some (close_row 95 s))
    × (count_where (blocks_close actor.tenant_id 100) closed.held_orders ≡ 0)
    × (check_close clerk firm 100 closed ≡ err (http (conflict shift_already_closed)))
close_shift-closes_example = close_shift-closes clerk firm 100 opened closed closing shop_closed

-- An order that is put aside and cancelled.
abbrev cashier_actor : HeldActor
cashier_actor = record { tenant_id = 1; sub = 2; role = cashier }

abbrev aside : List HeldOperation
aside =
    create_op cashier_actor (record {
      outlet_id = record { value = 3; casing = 0 };
      cashier_session_id = record { value = 4; casing = 0 };
      label = none;
      items = line_dto two_coffees ∷ [];
    })
    ∷ cancel_op cashier_actor 100 1
    ∷ []

run-Evolves_example : Evolves shop.held_orders (run aside shop).held_orders
run-Evolves_example = run-Evolves aside shop
