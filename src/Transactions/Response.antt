-- ===== src/Transactions/Response.antt =====
-- `responseSelect` and `toResponse` of transactions.service.ts: a transaction as it is read with
-- its lines, modifiers and payments, and the body that a client gets.
use kasirk_backend.Base.{ℕ, List, [], ◌∷◌, map, Option, none, some, ◌==◌, find, select}
use kasirk_backend.Base.Text.{Text}
use kasirk_backend.Common.Errors.{Result, ok, ◌>>=◌}
use kasirk_backend.Database.Rows.{
  Db, Transaction, TransactionStatus, TransactionItem, TransactionItemModifier, Payment, Product,
}
use kasirk_backend.Transactions.Dto.{map_option}
use kasirk_backend.Transactions.Pricing.{money}

pub record ItemRecord : Type 0 where
  pub item : TransactionItem
  pub modifiers : List TransactionItemModifier

pub record TransactionRecord : Type 0 where
  pub row : Transaction
  pub items : List ItemRecord
  pub payments : List Payment

-- The joins of `responseSelect`.
abbrev pub read_item : Db → TransactionItem → ItemRecord
read_item db i = record {
  item = i;
  modifiers = select (λ m. m.transaction_item_id == i.id) db.transaction_item_modifiers;
}

unfoldable pub read_record : Db → Transaction → TransactionRecord
read_record db t = record {
  row = t;
  items = map (read_item db) (select (λ i. i.transaction_id == t.id) db.transaction_items);
  payments = select (λ p. p.transaction_id == t.id) db.payments;
}

pub record Summary : Type 0 where
  pub transaction_id : ℕ
  pub client_transaction_id : ℕ
  pub outlet_id : ℕ
  pub user_id : ℕ
  pub customer_id : Option ℕ
  pub status : TransactionStatus
  pub subtotal : ℕ
  pub discount : ℕ
  pub tax : ℕ
  pub total : ℕ
  pub created_at : ℕ

pub record ItemResponse : Type 0 where
  pub item : TransactionItem
  pub product_name : Option Text
  pub sku : Option Text
  pub base_price : Option ℕ
  pub effective_price : Option ℕ
  pub modifiers : List TransactionItemModifier

pub record Response : Type 0 where
  pub summary : Summary
  pub open summary use *
  pub cashier_session_id : Option ℕ
  pub items : List ItemResponse
  pub payments : List Payment
  pub change : Option ℕ

unfoldable pub to_summary : Transaction → Result Summary
to_summary t = do
  subtotal ← money t.subtotal
  discount ← money t.discount
  tax ← money t.tax
  total ← money t.total
  ok (record {
    transaction_id = t.id;
    client_transaction_id = t.client_transaction_id;
    outlet_id = t.outlet_id;
    user_id = t.user_id;
    customer_id = t.customer_id;
    status = t.status;
    subtotal = subtotal;
    discount = discount;
    tax = tax;
    total = total;
    created_at = t.created_at;
  })

-- `value != null ? this.money(value) : null`
money_or_null : Option ℕ → Result (Option ℕ)
money_or_null none = ok none
money_or_null (some v) = do m ← money v; ok (some m)

unfoldable pub to_item : List Product → ItemRecord → Result ItemResponse
unfolding money_or_null
to_item legacy r =
    let i = r.item in
    do
      unit_price ← money i.unit_price
      unit_cost ← money i.unit_cost
      subtotal ← money i.subtotal
      base ← money_or_null i.base_price_snapshot
      effective ← money_or_null i.effective_price_snapshot
      let current = find (λ p. p.id == i.product_id) legacy
      ok (elim i.product_name_snapshot [
        | some name ↦ record {
          item = i;
          product_name = some name;
          sku = i.sku_snapshot;
          base_price = base;
          effective_price = effective;
          modifiers = r.modifiers;
        }
        | none ↦ record {
          item = i;
          product_name = map_option (λ (p : Product). p.name) current;
          sku = map_option (λ (p : Product). p.sku) current;
          base_price = some unit_price;
          effective_price = some unit_price;
          modifiers = r.modifiers;
        }
      ])

unfoldable pub to_items : List Product → List ItemRecord → Result (List ItemResponse)
unfolding to_item
to_items legacy [] = ok []
to_items legacy (r ∷ rs) = do i ← to_item legacy r; rest ← to_items legacy rs; ok (i ∷ rest)

unfoldable pub to_payments : List Payment → Result (List Payment)
unfolding money_or_null
to_payments [] = ok []
to_payments (p ∷ ps) = do
  amount ← money p.amount
  received ← money_or_null p.amount_received
  change ← money_or_null p.change_amount
  rest ← to_payments ps
  ok (record p { amount = amount; amount_received = received; change_amount = change } ∷ rest)

-- The change is that of the only payment.
unfoldable pub only_change : List Payment → Result (Option ℕ)
unfolding money_or_null
only_change (p ∷ []) = money_or_null p.change_amount
only_change _ = ok none

unfoldable pub to_response : List Product → TransactionRecord → Result Response
unfolding to_summary to_items to_payments only_change
to_response legacy t = do
  change ← only_change t.payments
  summary ← to_summary t.row
  items ← to_items legacy t.items
  payments ← to_payments t.payments
  ok (record {
    summary = summary;
    cashier_session_id = t.row.cashier_session_id;
    items = items;
    payments = payments;
    change = change;
  })
