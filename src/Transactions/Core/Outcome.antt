-- ===== src/Transactions/Core/Outcome.antt =====
-- A checkout with a new client transaction id: its figures, its rows and its stock.
use kasirk_backend.Base.{
  ℕ, suc, ◌+◌, ◌≡◌, subst, sym, ap, ap₂, ◌∙◌, not, List, [], ◌∷◌, ◌++◌, map, Option, none, arith,
  ◌==◌, find, select,
}
use kasirk_backend.Common.Errors.{ok, ok-inj, >>=-eq-ok}
use kasirk_backend.Database.Rows.{Db, StockMovement, Transaction, TransactionItem, completed}
use kasirk_backend.Database.Client.{reads-bind}
use kasirk_backend.Transactions.Dto.{Checkout, CheckoutMode}
use kasirk_backend.Transactions.Catalog.{ValidatedItem}
use kasirk_backend.Transactions.Catalog.Bought.{
  AreBought, asked, validate_lines-AreBought, tracked_quantity-asked,
}
use kasirk_backend.Transactions.Persist.Effect.{sale_items}
use kasirk_backend.Transactions.Pricing.{Totals, money}
use kasirk_backend.Transactions.Persist.{Actor, stock_by_product, sale_movement}
use kasirk_backend.Transactions.Persist.StockEffect.{
  quantity_of, on_hand, on_hand-taken, stock_by_product-quantity_of, select-elsewhere-taken,
}
use kasirk_backend.Transactions.Response.{
  Response, TransactionRecord, Summary, read_record, to_summary, to_response, to_items, to_payments,
  only_change,
}
use kasirk_backend.Transactions.Replay.{requested_key}
use kasirk_backend.Transactions.Checks.{Party, authorize, with_client_id}
use kasirk_backend.Transactions.Core.{checkout, answer}
use kasirk_backend.Transactions.Core.Sale.{IsPriced, price_sale-IsPriced, SaleOf, new_sale-SaleOf}
use kasirk_backend.Transactions.Core.WellFormed.{IsWellFormed, completed_row, sold-transactions}
use kasirk_backend.Transactions.Core.Written.{
  AreStored, AreTaken, item_rows-AreStored, sale_movements-AreTaken,
}
use kasirk_backend.Transactions.Core.Keys.{item_key, validate_lines-keys}
use kasirk_backend.Transactions.Core.Idempotent.{shown-sold}

pub checkout-SaleOf :
    (actor : Actor) (dto : Checkout) (mode : CheckoutMode) (db db' : Db) (r : Response)
    → find (with_client_id actor dto.client_transaction_id) db.transactions ≡ none
    → checkout actor dto mode db ≡ ok (r, db')
    → (party : Party) × (authorize actor db ≡ ok party) × SaleOf actor party dto db r db'
unfolding checkout answer
checkout-SaleOf actor dto mode db db' r new h =
    let (party, allowed, h1) = reads-bind (authorize actor) _ db h in
    let sale = sym (ap (λ (o : Option Transaction). answer actor party dto mode o db) new) ∙ h1 in
    (party, allowed, new_sale-SaleOf actor party dto mode db r db' sale)

sale_bought :
    (actor : Actor) (party : Party) (dto : Checkout) (db db' : Db) (r : Response)
    (s : SaleOf actor party dto db r db')
    → AreBought actor.tenant_id db dto.lines s.sale.items
sale_bought actor party dto db db' r s =
    validate_lines-AreBought actor.tenant_id dto.lines db s.prepared.catalog s.sale.items
      s.prepared.catalog_read s.prepared.items_valid

-- A checkout with a new client transaction id that succeeds takes from the rows of each product at
-- the outlet the quantities that its requested lines ask for if the tenant's product tracks its
-- stock, nothing if it does not, and nothing at other outlets. Its items are the requested lines,
-- each with the tenant's active product, the chosen active options and the price that these give.
-- The map of quantities holds of each product what is taken, and for each of its entries there is
-- one movement of that quantity out of the outlet, of the actor and for the transaction.
pub checkout_stock :
    (actor : Actor) (dto : Checkout) (mode : CheckoutMode) (db db' : Db) (r : Response)
    → find (with_client_id actor dto.client_transaction_id) db.transactions ≡ none
    → checkout actor dto mode db ≡ ok (r, db')
    → (items : List ValidatedItem) × (map item_key items ≡ map requested_key dto.lines)
      × AreBought actor.tenant_id db dto.lines items
      × ((product : ℕ)
          → on_hand actor.tenant_id dto.outlet_id db.outlets db.products product db.product_stocks
            ≡ on_hand actor.tenant_id dto.outlet_id db.outlets db.products product
                db'.product_stocks
              + asked actor.tenant_id db product dto.lines)
      × (select (λ s. not (s.outlet_id == dto.outlet_id)) db'.product_stocks
          ≡ select (λ s. not (s.outlet_id == dto.outlet_id)) db.product_stocks)
      × ((product : ℕ)
          → quantity_of product (stock_by_product items)
            ≡ asked actor.tenant_id db product dto.lines)
      × (moves : List StockMovement) × AreTaken actor dto.outlet_id db.next_id
          (stock_by_product items)
          moves
      × (db'.stock_movements ≡ db.stock_movements ++ moves)
checkout_stock actor dto mode db db' r new h =
    let (party, _, s) = checkout-SaleOf actor dto mode db db' r new h in
    let items = s.sale.items in
    let rows = ap (λ (d : Db). d.product_stocks) s.stored in
    let bought = sale_bought actor party dto db db' r s in
    let quantities = λ (product : ℕ).
      stock_by_product-quantity_of product items
      ∙ tracked_quantity-asked actor.tenant_id db product dto.lines items bought in
    let held = λ (product : ℕ).
      on_hand-taken actor.tenant_id dto.outlet_id db.outlets db.products product
        (stock_by_product items) db.product_stocks s.covered
      ∙ ap₂ ◌+◌
          (ap (on_hand actor.tenant_id dto.outlet_id db.outlets db.products product) (sym rows))
          (quantities product) in
    (
      items,
      validate_lines-keys s.prepared.catalog dto.lines items s.prepared.items_valid,
      bought,
      held,
      ap (select (λ s. not (s.outlet_id == dto.outlet_id))) rows
          ∙ select-elsewhere-taken actor.tenant_id dto.outlet_id db.outlets db.products
              (stock_by_product items) db.product_stocks,
      quantities,
      map (sale_movement actor dto.outlet_id db.next_id) (stock_by_product items),
      sale_movements-AreTaken actor dto.outlet_id db.next_id (stock_by_product items),
      ap (λ (d : Db). d.stock_movements) s.stored,
    )

money-ok : (v m : ℕ) → money v ≡ ok m → m ≡ v
unfolding money
money-ok v m h = ground arith

pub to_summary-figures :
    (t : Transaction) (s : Summary)
    → to_summary t ≡ ok s
    → (s.transaction_id ≡ t.id)
      × (s.status ≡ t.status)
      × (s.subtotal ≡ t.subtotal)
      × (s.discount ≡ t.discount)
      × (s.tax ≡ t.tax)
      × (s.total ≡ t.total)
unfolding to_summary money
to_summary-figures t s h = ground arith

pub to_response-summary :
    (x : TransactionRecord) (r : Response)
    → to_response [] x ≡ ok r
    → to_summary x.row ≡ ok r.summary
unfolding to_response
to_response-summary x r h =
    let (_, _, h1) = >>=-eq-ok (only_change x.payments) _ h in
    let (s, summed, h2) = >>=-eq-ok (to_summary x.row) _ h1 in
    let (_, _, h3) = >>=-eq-ok (to_items [] x.items) _ h2 in
    let (_, _, h4) = >>=-eq-ok (to_payments x.payments) _ h3 in
    summed ∙ ap (λ (q : Response). ok q.summary) (ok-inj h4)

-- On a well-formed database, a checkout with a new client transaction id that succeeds stores its
-- transaction as completed and one row for each requested line, with the tenant's active product,
-- the quantity, the price that the product and the chosen active options' deltas give, and price
-- times quantity. The totals are those that these lines, the discount, the tenant's tax and the
-- payment give (subtotal the sum of the lines, discount at most that, total positive and within
-- 2^53 - 1, cash covering it), and the response shows these totals.
pub checkout_figures :
    (actor : Actor) (dto : Checkout) (mode : CheckoutMode) (db db' : Db) (r : Response)
    → IsWellFormed db
    → find (with_client_id actor dto.client_transaction_id) db.transactions ≡ none
    → checkout actor dto mode db ≡ ok (r, db')
    → (party : Party) × (items : List ValidatedItem) × (t : Totals) × (rows : List TransactionItem)
      × (authorize actor db ≡ ok party)
      × (map item_key items ≡ map requested_key dto.lines)
      × AreBought actor.tenant_id db dto.lines items
      × AreStored actor.tenant_id r.transaction_id items rows
      × (db'.transaction_items ≡ db.transaction_items ++ rows)
      × IsPriced party.tenant items dto.discount dto.payment t
      × (db'.transactions ≡ db.transactions ++ completed_row actor dto t db ∷ [])
      × (r.transaction_id ≡ db.next_id)
      × (r.status ≡ completed)
      × (r.subtotal ≡ t.subtotal)
      × (r.discount ≡ t.discount)
      × (r.tax ≡ t.tax)
      × (r.total ≡ t.total)
unfolding read_record
checkout_figures actor dto mode db db' r w new h =
    let (party, allowed, s) = checkout-SaleOf actor dto mode db db' r new h in
    let items = s.sale.items in
    let t = s.sale.totals in
    let figures =
      to_summary-figures (completed_row actor dto t db) r.summary
        (to_response-summary _ r (shown-sold actor party dto db r db' w s)) in
    (
      party,
      items,
      t,
      sale_items actor db items,
      allowed,
      validate_lines-keys s.prepared.catalog dto.lines items s.prepared.items_valid,
      sale_bought actor party dto db db' r s,
      subst (λ n. AreStored actor.tenant_id n items (sale_items actor db items)) (sym figures.0)
          (item_rows-AreStored actor.tenant_id db.next_id (suc db.next_id) items),
      ap (λ (d : Db). d.transaction_items) s.stored,
      price_sale-IsPriced party.tenant items dto.discount dto.payment t s.prepared.priced,
      ap (λ (d : Db). d.transactions) s.stored ∙ sold-transactions actor dto items t db w,
      figures.0,
      figures.1,
      figures.2,
      figures.3,
      figures.4,
      figures.5,
    )
