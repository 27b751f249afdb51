-- ===== src/Tests/Sample.antt =====
-- A shop with one outlet, a cashier with an open session, and two products, one with a modifier.
use kasirk_backend.Base.{true, false, [], ◌∷◌, none, some}
use kasirk_backend.Common.Roles.{cashier}
use kasirk_backend.Common.Tax.{fixed}
use kasirk_backend.Database.Rows.{Db, User, Product, cash, open_session, single}
use kasirk_backend.Transactions.Dto.{Checkout, Line, PaymentDto}
use kasirk_backend.Transactions.Persist.{Actor}
use kasirk_backend.Transactions.Core.WellFormed.{IsWellFormed}

abbrev pub coffee : Product
coffee = record {
  id = 10;
  tenant_id = 1;
  category_id = some 30;
  name = 67 ∷ [];
  sku = 75 ∷ [];
  price = 10000;
  cost = 4000;
  minimum_stock = 0;
  track_stock = true;
  is_active = true;
}

abbrev pub bread : Product
bread = record {
  id = 11;
  tenant_id = 1;
  category_id = none;
  name = 66 ∷ [];
  sku = 76 ∷ [];
  price = 5000;
  cost = 2000;
  minimum_stock = 0;
  track_stock = true;
  is_active = true;
}

abbrev pub cashier_row : User
cashier_row = record {
  id = 2;
  tenant_id = 1;
  outlet_id = some 3;
  name = 65 ∷ [];
  email = 97 ∷ [];
  password_hash = 112 ∷ [];
  pin_hash = some (49 ∷ []);
  pin_failed_attempts = 0;
  locked_until = none;
  pin_changed_at = none;
  role = cashier;
  is_active = true;
}

abbrev pub shop : Db
shop = record {
  users = cashier_row ∷ [];
  tenants =
      record {
        id = 1;
        store_code = some (83 ∷ []);
        name = 84 ∷ [];
        tax_enabled = true;
        tax_rate = fixed 1100;
        is_active = true;
      }
      ∷ [];
  outlets = record { id = 3; tenant_id = 1; name = 79 ∷ []; address = none; is_active = true } ∷ [];
  customers = [];
  categories = record { id = 30; tenant_id = 1; name = 68 ∷ [] } ∷ [];
  device_sessions = [];
  receipt_settings = [];
  cashier_sessions =
      record {
        id = 4;
        tenant_id = 1;
        outlet_id = 3;
        user_id = 2;
        opening_cash = none;
        closing_cash = none;
        expected_cash = none;
        difference = none;
        status = open_session;
        opened_at = 90;
        closed_at = none;
      }
      ∷ [];
  products = coffee ∷ bread ∷ [];
  modifier_groups =
      record { id = 20; tenant_id = 1; name = 71 ∷ []; is_active = true; display_order = 0 } ∷ [];
  product_modifier_groups =
      record {
        tenant_id = 1;
        product_id = 10;
        modifier_group_id = 20;
        required = true;
        selection_type = single;
        display_order = 0;
      }
      ∷ [];
  modifier_options =
      record {
        id = 21;
        tenant_id = 1;
        modifier_group_id = 20;
        name = 79 ∷ [];
        price_delta = 2000;
        is_active = true;
        display_order = 0;
      }
      ∷ [];
  product_stocks =
      record { outlet_id = 3; product_id = 10; stock = 8 }
      ∷ record { outlet_id = 3; product_id = 11; stock = 5 }
      ∷ record { outlet_id = 9; product_id = 10; stock = 7 }
      ∷ [];
  stock_movements = [];
  stock_adjustments = [];
  transactions = [];
  transaction_items = [];
  transaction_item_modifiers = [];
  payments = [];
  held_orders = [];
  held_order_items = [];
  held_order_item_modifiers = [];
  next_id = 100;
  clock = 95;
}

abbrev pub seller_actor : Actor
seller_actor = record { tenant_id = 1; sub = 2 }

abbrev pub cash_payment : PaymentDto
cash_payment = record {
  method = cash;
  amount = none;
  amount_received = some 40000;
  has_change_amount = false;
}

abbrev pub two_coffees : Line
two_coffees = record {
  product_id = 10;
  quantity = 2;
  modifier_option_ids = 21 ∷ [];
  note = some (78 ∷ []);
}

abbrev pub one_bread : Line
one_bread = record { product_id = 11; quantity = 1; modifier_option_ids = []; note = none }

abbrev pub purchase : Checkout
purchase = record {
  client_transaction_id = 50;
  outlet_id = 3;
  cashier_session_id = some 4;
  customer_id = none;
  lines = two_coffees ∷ one_bread ∷ [];
  discount = 0;
  payment = cash_payment;
}

pub shop-IsWellFormed : IsWellFormed shop
shop-IsWellFormed = record {
  transaction_ids = tt;
  item_ids = tt;
  item_parents = tt;
  modifier_parents = tt;
  payment_parents = tt;
}
