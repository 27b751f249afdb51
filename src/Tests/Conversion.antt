-- ===== src/Tests/Conversion.antt =====
-- A held order of the sample shop, converted into the sale of the purchase.
use kasirk_backend.Base.{◌≤◌, ◌≡◌, refl, false, [], ◌∷◌, none, some, count_where}
use kasirk_backend.Common.Errors.{ok}
use kasirk_backend.Common.Roles.{cashier}
use kasirk_backend.Database.Rows.{
  Db, HeldOrder, HeldOrderItem, HeldOrderItemModifier, open_order, converted_order,
}
use kasirk_backend.HeldOrders.Dto.{CheckoutHeldOrderDto}
use kasirk_backend.HeldOrders.Access.{HeldActor}
use kasirk_backend.HeldOrders.Convert.{Conversion, convert_held_order}
use kasirk_backend.HeldOrders.Convert.Links.{linked, convert_held_order-linked}
use kasirk_backend.Base.Text.{trim}
use kasirk_backend.Common.Tax.{calculate_tax}
use kasirk_backend.HeldOrders.Access.{read_scope}
use kasirk_backend.HeldOrders.Read.{find_in_scope, assert_open_version, read_held}
use kasirk_backend.HeldOrders.Write.{guarded_update}
use kasirk_backend.HeldOrders.Convert.{check_origin}
use kasirk_backend.Transactions.Dto.{valid_checkout, normalize_checkout_dto}
use kasirk_backend.Transactions.Catalog.{read_catalog, validate_lines}
use kasirk_backend.Transactions.Checks.{authorize, prepare_sale, read_response}
use kasirk_backend.Transactions.Pricing.{price_sale}
use kasirk_backend.Transactions.Tender.{resolve_tender, assert_checkout_input}
use kasirk_backend.Transactions.Persist.{persist_sale}
use kasirk_backend.Transactions.Response.{to_response, read_record}
use kasirk_backend.Transactions.Core.{execute_transaction_core}
use kasirk_backend.Tests.Sample.{shop, cash_payment}
use kasirk_backend.Tests.Receipt.{receipt, shop_after}

abbrev order : HeldOrder
order = record {
  id = 60;
  tenant_id = 1;
  outlet_id = 3;
  origin_cashier_session_id = 4;
  cashier_user_id = 2;
  label = none;
  status = open_order;
  version = 1;
  subtotal_estimate = 29000;
  tax_estimate = 3190;
  total_estimate = 32190;
  converted_transaction_id = none;
  cancelled_at = none;
  converted_at = none;
}

abbrev coffee_line : HeldOrderItem
coffee_line = record {
  id = 61;
  tenant_id = 1;
  held_order_id = 60;
  product_id = 10;
  quantity = 2;
  product_name_snapshot = 67 ∷ [];
  sku_snapshot = 75 ∷ [];
  base_price_snapshot = 10000;
  effective_price_snapshot = 12000;
  line_subtotal = 24000;
  line_discount = 0;
  line_total = 24000;
  note_snapshot = some (78 ∷ []);
  display_order = 0;
}

abbrev bread_line : HeldOrderItem
bread_line = record {
  id = 62;
  tenant_id = 1;
  held_order_id = 60;
  product_id = 11;
  quantity = 1;
  product_name_snapshot = 66 ∷ [];
  sku_snapshot = 76 ∷ [];
  base_price_snapshot = 5000;
  effective_price_snapshot = 5000;
  line_subtotal = 5000;
  line_discount = 0;
  line_total = 5000;
  note_snapshot = none;
  display_order = 1;
}

abbrev coffee_option : HeldOrderItemModifier
coffee_option = record {
  id = 63;
  tenant_id = 1;
  held_order_item_id = 61;
  modifier_group_id = some 20;
  modifier_option_id = some 21;
  group_name_snapshot = 71 ∷ [];
  option_name_snapshot = 79 ∷ [];
  price_delta_snapshot = 2000;
}

abbrev shop_held : Db
shop_held = record shop {
  held_orders = order ∷ [];
  held_order_items = coffee_line ∷ bread_line ∷ [];
  held_order_item_modifiers = coffee_option ∷ [];
}

abbrev shop_converted : Db
shop_converted = record shop_after {
  held_orders =
      record order {
        status = converted_order;
        version = 2;
        converted_transaction_id = some 100;
        converted_at = some 95;
      }
      ∷ [];
  held_order_items = coffee_line ∷ bread_line ∷ [];
  held_order_item_modifiers = coffee_option ∷ [];
}

abbrev clerk_actor : HeldActor
clerk_actor = record { tenant_id = 1; sub = 2; role = cashier }

abbrev pay : CheckoutHeldOrderDto
pay = record {
  expected_version = 1;
  client_transaction_id = record { value = 50; casing = 0 };
  payment = cash_payment;
}

abbrev first_answer : Conversion
first_answer = record { transaction = receipt; replayed = false }

order_converted :
    convert_held_order clerk_actor 60 pay shop_held ≡ ok (first_answer, shop_converted)
unfolding convert_held_order find_in_scope read_scope assert_open_version check_origin
    guarded_update read_held valid_checkout trim normalize_checkout_dto authorize prepare_sale
    read_catalog validate_lines price_sale calculate_tax resolve_tender persist_sale read_response
    to_response read_record assert_checkout_input execute_transaction_core
order_converted = refl

convert_held_order-linked_example :
    1 ≤ count_where (linked 1 60 receipt.transaction_id) shop_converted.held_orders
convert_held_order-linked_example =
    convert_held_order-linked clerk_actor 60 pay shop_held shop_converted first_answer
      order_converted refl
