-- ===== src/Transactions/Persist.antt =====
-- `checkout` of transactions.service.ts, the writes: the pending transaction, its lines with their
-- modifiers, the stock and its movements, the payment, and the completion.
pub mod Effect
pub mod StockEffect
use kasirk_backend.Base.{
  ℕ, suc, ◌+◌, ◌-◌, ◌*◌, ◌≤◌, ◌<◌, ◌≡◌, refl, Bool, true, false, ◌&&◌, not, List, [], ◌∷◌, ◌++◌,
  map, Option, none, some, arith, if◌then◌else◌, ◌==◌, leb, find, any, count_where, update, length,
}
use kasirk_backend.Base.Int.{ℤ, neg}
use kasirk_backend.Base.Text.{Text}
use kasirk_backend.Common.Errors.{ok, conflict, insufficient_stock}
use kasirk_backend.Database.Rows.{
  Db, ProductStock, StockMovement, sale, Transaction, pending, completed, TransactionItem,
  TransactionItemModifier, Payment, paid, Outlet, Product,
}
use kasirk_backend.Database.Client.{Tx, ◌>>=◌, ◌>>◌, pure, gets, modify, raise_if}
use kasirk_backend.Transactions.Dto.{Checkout, PaymentDto}
use kasirk_backend.Transactions.Catalog.{ValidatedItem, ResolvedOption}
use kasirk_backend.Transactions.Pricing.{Totals, line_subtotal}

-- Who sells: `user.tenant_id` and `user.sub` in lower case.
pub record Actor : Type 0 where
  pub tenant_id : ℕ
  pub sub : ℕ

unfoldable pub create_transaction : Actor → Checkout → Totals → Tx ℕ
create_transaction user dto t db =
    ok (
      db.next_id,
      record db { transactions = db.transactions ++ row ∷ []; next_id = suc db.next_id },
    )
  where
    row : Transaction
    row = record {
      id = db.next_id;
      tenant_id = user.tenant_id;
      outlet_id = dto.outlet_id;
      user_id = user.sub;
      customer_id = dto.customer_id;
      cashier_session_id = dto.cashier_session_id;
      client_transaction_id = dto.client_transaction_id;
      status = pending;
      subtotal = t.subtotal;
      discount = t.discount;
      tax = t.tax;
      total = t.total;
      created_at = db.clock;
    }

abbrev pub item_row : ℕ → ℕ → ℕ → ValidatedItem → TransactionItem
item_row tenant transaction id vi = record {
  id = id;
  tenant_id = tenant;
  transaction_id = transaction;
  product_id = vi.product.id;
  quantity = vi.quantity;
  unit_price = vi.effective_price;
  unit_cost = vi.product.cost;
  subtotal = line_subtotal vi;
  product_name_snapshot = some vi.product.name;
  sku_snapshot = some vi.product.sku;
  base_price_snapshot = some vi.product.price;
  effective_price_snapshot = some vi.effective_price;
  note_snapshot = vi.note;
}

create_item : ℕ → ℕ → ValidatedItem → Tx ℕ
create_item tenant transaction vi db = ok (
  db.next_id,
  record db {
    transaction_items = db.transaction_items ++ item_row tenant transaction db.next_id vi ∷ [];
    next_id = suc db.next_id;
  },
)

-- The loop that creates the lines one by one, with the ids in line order.
unfoldable pub create_items : ℕ → ℕ → List ValidatedItem → Tx (List ℕ)
unfolding create_item
create_items tenant transaction [] = pure []
create_items tenant transaction (vi ∷ items) = do
  id ← create_item tenant transaction vi
  ids ← create_items tenant transaction items
  pure (id ∷ ids)

create_modifier : ℕ → ℕ → ℕ → ResolvedOption → Tx (Unit {0})
create_modifier tenant transaction item o db = ok (
  tt,
  record db {
    transaction_item_modifiers = db.transaction_item_modifiers ++ row ∷ [];
    next_id = suc db.next_id;
  },
)
  where
    row : TransactionItemModifier
    row = record {
      id = db.next_id;
      tenant_id = tenant;
      transaction_id = transaction;
      transaction_item_id = item;
      modifier_group_id = some o.modifier_group_id;
      modifier_option_id = some o.id;
      group_name_snapshot = o.group_name;
      option_name_snapshot = o.option_name;
      price_delta_snapshot = o.price_delta;
    }

create_item_modifiers : ℕ → ℕ → ℕ → List ResolvedOption → Tx (Unit {0})
unfolding create_modifier
create_item_modifiers tenant transaction item [] = pure tt
create_item_modifiers tenant transaction item (o ∷ options) =
    create_modifier tenant transaction item o
    >> create_item_modifiers tenant transaction item options

-- The modifier snapshots of every line, each under its line's id.
unfoldable pub create_modifiers : ℕ → ℕ → List ValidatedItem → List ℕ → Tx (Unit {0})
unfolding create_item_modifiers
create_modifiers tenant transaction (vi ∷ items) (id ∷ ids) =
    create_item_modifiers tenant transaction id vi.options
    >> create_modifiers tenant transaction items ids
create_modifiers tenant transaction _ _ = pure tt

-- `stockByProduct.set(id, (stockByProduct.get(id) ?? 0) + quantity)`
unfoldable pub add_quantity : ℕ → ℕ → List (ℕ × ℕ) → List (ℕ × ℕ)
add_quantity product quantity [] = (product, quantity) ∷ []
add_quantity product quantity ((p, q) ∷ m) =
    if p == product then (p, q + quantity) ∷ m else (p, q) ∷ add_quantity product quantity m

-- `stockByProduct`: the quantity to take of each tracked product, in order of first appearance.
unfoldable pub collect_stock : List (ℕ × ℕ) → List ValidatedItem → List (ℕ × ℕ)
unfolding add_quantity
collect_stock m [] = m
collect_stock m (vi ∷ items) =
    collect_stock (if vi.product.track_stock then add_quantity vi.product.id vi.quantity m else m)
      items

unfoldable pub stock_by_product : List ValidatedItem → List (ℕ × ℕ)
unfolding collect_stock
stock_by_product = collect_stock []

-- The row of a product at an outlet, both of the tenant.
abbrev pub stock_match : ℕ → ℕ → ℕ → List Outlet → List Product → ProductStock → Bool
stock_match tenant outlet product outlets products s =
    s.outlet_id == outlet
    && s.product_id == product
    && any (λ o. o.id == outlet && o.tenant_id == tenant) outlets
    && any (λ p. p.id == product && p.tenant_id == tenant) products

abbrev pub stock_row : ℕ → ℕ → ℕ → Db → ProductStock → Bool
stock_row tenant outlet product db = stock_match tenant outlet product db.outlets db.products

unfoldable pub decrement_stock : Actor → ℕ → ℕ → ℕ → Tx (Unit {0})
decrement_stock user outlet product qty = do
  db ← gets (λ db. db)
  let matches =
      λ (s : ProductStock). stock_row user.tenant_id outlet product db s && leb qty s.stock
  modify λ db'. record db' {
    product_stocks = update matches (λ s. record s { stock = s.stock - qty }) db.product_stocks;
  }
  raise_if (not (count_where matches db.product_stocks == 1))
      (conflict (insufficient_stock product))

-- The loop over `stockByProduct`.
unfoldable pub decrement_stocks : Actor → ℕ → List (ℕ × ℕ) → Tx (Unit {0})
unfolding decrement_stock
decrement_stocks user outlet [] = pure tt
decrement_stocks user outlet ((product, qty) ∷ m) =
    decrement_stock user outlet product qty >> decrement_stocks user outlet m

abbrev pub sale_movement : Actor → ℕ → ℕ → ℕ × ℕ → StockMovement
sale_movement user outlet transaction (product, qty) = record {
  tenant_id = user.tenant_id;
  outlet_id = outlet;
  product_id = product;
  user_id = user.sub;
  type = sale;
  quantity = neg qty;
  reference_id = transaction;
  reason = none;
}

unfoldable pub create_movements : Actor → ℕ → ℕ → List (ℕ × ℕ) → Tx (Unit {0})
create_movements user outlet transaction m = modify λ db. record db {
  stock_movements = db.stock_movements ++ map (sale_movement user outlet transaction) m;
}

-- `resolvedTender !== null ? resolvedTender - total : null`; the tender covers the total.
abbrev pub change : Option ℕ → ℕ → Option ℕ
change none total = none
change (some t) total = some (t - total)

abbrev pub payment_row : ℕ → ℕ → PaymentDto → Totals → ℕ → ℕ → Payment
payment_row tenant transaction p t id now = record {
  id = id;
  tenant_id = tenant;
  transaction_id = transaction;
  method = p.method;
  status = paid;
  amount = t.total;
  amount_received = t.tender;
  change_amount = change t.tender t.total;
  paid_at = now;
}

unfoldable pub create_payment : Actor → ℕ → PaymentDto → Totals → Tx (Unit {0})
create_payment user transaction p t db = ok (
  tt,
  record db {
    payments = db.payments ++ payment_row user.tenant_id transaction p t db.next_id db.clock ∷ [];
    next_id = suc db.next_id;
  },
)

unfoldable pub complete_transaction : ℕ → ℕ → Tx (Unit {0})
complete_transaction tenant transaction = modify λ db. record db {
  transactions =
      update (λ t. t.id == transaction && t.tenant_id == tenant)
        (λ t. record t { status = completed }) db.transactions;
}

-- All writes of a sale, in order; the result is the id of the transaction.
unfoldable pub persist_sale : Actor → Checkout → List ValidatedItem → Totals → Tx ℕ
unfolding create_transaction create_items create_modifiers stock_by_product decrement_stocks
    create_movements create_payment complete_transaction
persist_sale user dto items totals = do
  transaction ← create_transaction user dto totals
  ids ← create_items user.tenant_id transaction items
  create_modifiers user.tenant_id transaction items ids
  decrement_stocks user dto.outlet_id (stock_by_product items)
  create_movements user dto.outlet_id transaction (stock_by_product items)
  create_payment user transaction dto.payment totals
  complete_transaction user.tenant_id transaction
  pure transaction
