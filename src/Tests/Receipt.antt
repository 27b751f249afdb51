-- ===== src/Tests/Receipt.antt =====
-- The purchase of the sample shop, as it was run: its response and the database after it.
use kasirk_backend.Base.{[], ◌∷◌, none, some}
use kasirk_backend.Base.Int.{negsuc}
use kasirk_backend.Database.Rows.{Db, cash, paid, sale, completed}
use kasirk_backend.Transactions.Response.{Response}
use kasirk_backend.Tests.Sample.{shop}

-- The response of the purchase, and the shop after it.
abbrev pub receipt : Response
receipt = record {
  summary = record {
    transaction_id = 100;
    client_transaction_id = 50;
    outlet_id = 3;
    user_id = 2;
    customer_id = none;
    status = completed;
    subtotal = 29000;
    discount = 0;
    tax = 3190;
    total = 32190;
    created_at = 95;
  };
  cashier_session_id = some 4;
  items =
      record {
        item = record {
          id = 101;
          tenant_id = 1;
          transaction_id = 100;
          product_id = 10;
          quantity = 2;
          unit_price = 12000;
          unit_cost = 4000;
          subtotal = 24000;
          product_name_snapshot = some (67 ∷ []);
          sku_snapshot = some (75 ∷ []);
          base_price_snapshot = some 10000;
          effective_price_snapshot = some 12000;
          note_snapshot = some (78 ∷ []);
        };
        product_name = some (67 ∷ []);
        sku = some (75 ∷ []);
        base_price = some 10000;
        effective_price = some 12000;
        modifiers =
            record {
              id = 103;
              tenant_id = 1;
              transaction_id = 100;
              transaction_item_id = 101;
              modifier_group_id = some 20;
              modifier_option_id = some 21;
              group_name_snapshot = 71 ∷ [];
              option_name_snapshot = 79 ∷ [];
              price_delta_snapshot = 2000;
            }
            ∷ [];
      }
      ∷ record {
        item = record {
          id = 102;
          tenant_id = 1;
          transaction_id = 100;
          product_id = 11;
          quantity = 1;
          unit_price = 5000;
          unit_cost = 2000;
          subtotal = 5000;
          product_name_snapshot = some (66 ∷ []);
          sku_snapshot = some (76 ∷ []);
          base_price_snapshot = some 5000;
          effective_price_snapshot = some 5000;
          note_snapshot = none;
        };
        product_name = some (66 ∷ []);
        sku = some (76 ∷ []);
        base_price = some 5000;
        effective_price = some 5000;
        modifiers = [];
      }
      ∷ [];
  payments =
      record {
        id = 104;
        tenant_id = 1;
        transaction_id = 100;
        method = cash;
        status = paid;
        amount = 32190;
        amount_received = some 40000;
        change_amount = some 7810;
        paid_at = 95;
      }
      ∷ [];
  change = some 7810;
}

abbrev pub shop_after : Db
shop_after = record shop {
  product_stocks =
      record { outlet_id = 3; product_id = 10; stock = 6 }
      ∷ record { outlet_id = 3; product_id = 11; stock = 4 }
      ∷ record { outlet_id = 9; product_id = 10; stock = 7 }
      ∷ [];
  stock_movements =
      record {
        tenant_id = 1;
        outlet_id = 3;
        product_id = 10;
        user_id = 2;
        type = sale;
        quantity = negsuc 1;
        reference_id = 100;
        reason = none;
      }
      ∷ record {
        tenant_id = 1;
        outlet_id = 3;
        product_id = 11;
        user_id = 2;
        type = sale;
        quantity = negsuc 0;
        reference_id = 100;
        reason = none;
      }
      ∷ [];
  transactions =
      record {
        id = 100;
        tenant_id = 1;
        outlet_id = 3;
        user_id = 2;
        customer_id = none;
        cashier_session_id = some 4;
        client_transaction_id = 50;
        status = completed;
        subtotal = 29000;
        discount = 0;
        tax = 3190;
        total = 32190;
        created_at = 95;
      }
      ∷ [];
  transaction_items =
      record {
        id = 101;
        tenant_id = 1;
        transaction_id = 100;
        product_id = 10;
        quantity = 2;
        unit_price = 12000;
        unit_cost = 4000;
        subtotal = 24000;
        product_name_snapshot = some (67 ∷ []);
        sku_snapshot = some (75 ∷ []);
        base_price_snapshot = some 10000;
        effective_price_snapshot = some 12000;
        note_snapshot = some (78 ∷ []);
      }
      ∷ record {
        id = 102;
        tenant_id = 1;
        transaction_id = 100;
        product_id = 11;
        quantity = 1;
        unit_price = 5000;
        unit_cost = 2000;
        subtotal = 5000;
        product_name_snapshot = some (66 ∷ []);
        sku_snapshot = some (76 ∷ []);
        base_price_snapshot = some 5000;
        effective_price_snapshot = some 5000;
        note_snapshot = none;
      }
      ∷ [];
  transaction_item_modifiers =
      record {
        id = 103;
        tenant_id = 1;
        transaction_id = 100;
        transaction_item_id = 101;
        modifier_group_id = some 20;
        modifier_option_id = some 21;
        group_name_snapshot = 71 ∷ [];
        option_name_snapshot = 79 ∷ [];
        price_delta_snapshot = 2000;
      }
      ∷ [];
  payments =
      record {
        id = 104;
        tenant_id = 1;
        transaction_id = 100;
        method = cash;
        status = paid;
        amount = 32190;
        amount_received = some 40000;
        change_amount = some 7810;
        paid_at = 95;
      }
      ∷ [];
  next_id = 105;
}
