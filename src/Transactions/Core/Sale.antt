-- ===== src/Transactions/Core/Sale.antt =====
-- What a sale that succeeds has been through: the parts of `new_sale`, and of `price_sale`.
use kasirk_backend.Base.{
  ℕ, ◌*◌, ◌-◌, ◌≤◌, ◌<◌, ◌≡◌, sym, subst, subst₂, ap, ◌∙◌, Bool, false, ◌&&◌, List, [], some, arith,
  ◌==◌, find, sum_by,
}
use kasirk_backend.Common.Errors.{ok, ok-inj, or_else-eq-ok, >>=-eq-ok}
use kasirk_backend.Common.Tax.{calculate_tax}
use kasirk_backend.Database.Rows.{Db, Transaction, Tenant}
use kasirk_backend.Database.Client.{bind-ok, lift-ok, reads-bind}
use kasirk_backend.Transactions.Dto.{Checkout, CheckoutMode, PaymentDto, max_safe_integer}
use kasirk_backend.Transactions.Tender.{resolve_tender}
use kasirk_backend.Transactions.Catalog.{Catalog, ValidatedItem, read_catalog, validate_lines}
use kasirk_backend.Transactions.Pricing.{Totals, price_sale, money, underpaid}
use kasirk_backend.Transactions.Persist.{Actor, persist_sale, stock_by_product}
use kasirk_backend.Transactions.Persist.Effect.{sold, IsCovered, persist_sale-ok}
use kasirk_backend.Transactions.Response.{Response, to_response, read_record}
use kasirk_backend.Transactions.Checks.{
  Party, Prepared, prepare_sale, check_session, check_place, read_response,
}
use kasirk_backend.Transactions.Core.{new_sale}

-- The figures of a sale that was priced.
pub record IsPriced (tenant : Tenant) (items : List ValidatedItem) (discount : ℕ) (p : PaymentDto)
    (t : Totals) : Type 0 where
  pub subtotal_eq : t.subtotal ≡ sum_by (λ vi. vi.effective_price * vi.quantity) items
  pub discount_eq : t.discount ≡ discount
  pub discount_le : discount ≤ t.subtotal
  pub tax_eq :
      t.tax ≡ (calculate_tax tenant.tax_enabled tenant.tax_rate (t.subtotal - discount)).tax
  pub total_eq :
      t.total ≡ (calculate_tax tenant.tax_enabled tenant.tax_rate (t.subtotal - discount)).total
  pub positive : 0 < t.total
  pub in_range : (t.subtotal ≤ max_safe_integer) × (t.total ≤ max_safe_integer)
  pub tender_eq : t.tender ≡ resolve_tender p
  pub tender_covers : underpaid t.tender t.total ≡ false

pub price_sale-IsPriced :
    (tenant : Tenant) (items : List ValidatedItem) (discount : ℕ) (p : PaymentDto) (t : Totals)
    → price_sale tenant items discount p ≡ ok t
    → IsPriced tenant items discount p t
unfolding price_sale money
price_sale-IsPriced tenant items discount p t h = ground arith

-- The lines and figures of a sale, as they were prepared.
pub record IsPrepared (actor : Actor) (party : Party) (dto : Checkout) (db : Db) (sale : Prepared)
    : Type 0 where
  pub catalog : Catalog
  pub catalog_read : read_catalog actor.tenant_id dto.lines db ≡ ok catalog
  pub items_valid : validate_lines catalog dto.lines ≡ ok sale.items
  pub priced : price_sale party.tenant sale.items dto.discount dto.payment ≡ ok sale.totals

prepare_sale-IsPrepared :
    (actor : Actor) (party : Party) (dto : Checkout) (mode : CheckoutMode) (db : Db)
    {sale : Prepared}
    → prepare_sale actor party dto mode db ≡ ok sale
    → IsPrepared actor party dto db sale
unfolding prepare_sale
prepare_sale-IsPrepared actor party dto mode db h =
    let (_, _, h1) = >>=-eq-ok (check_session actor dto mode db) _ h in
    let (_, _, h2) = >>=-eq-ok (check_place actor party.user.role dto db) _ h1 in
    let (catalog, read, h3) = >>=-eq-ok (read_catalog actor.tenant_id dto.lines db) _ h2 in
    let (items, valid, h4) = >>=-eq-ok (validate_lines catalog dto.lines) _ h3 in
    let (totals, priced, h5) =
      >>=-eq-ok (price_sale party.tenant items dto.discount dto.payment) _ h4 in
    record {
      catalog = catalog;
      catalog_read = read;
      items_valid = valid ∙ ap (λ (s : Prepared). ok s.items) (ok-inj h5);
      priced =
          subst
            (λ (s : Prepared).
              price_sale party.tenant s.items dto.discount dto.payment ≡ ok s.totals)
            (ok-inj h5) priced;
    }

-- A new sale that succeeded: prepared, stored, and shown from its row.
pub record SaleOf (actor : Actor) (party : Party) (dto : Checkout) (db : Db) (r : Response)
    (db' : Db) : Type 0 where
  pub sale : Prepared
  pub prepared : IsPrepared actor party dto db sale
  pub stored : db' ≡ sold actor dto sale.items sale.totals db
  pub covered :
      IsCovered actor.tenant_id dto.outlet_id db.outlets db.products
        (stock_by_product sale.items)
        db.product_stocks
  pub row : Transaction
  pub found :
      find (λ t. t.id == db.next_id && t.tenant_id == actor.tenant_id) db'.transactions ≡ some row
  pub shown : to_response [] (read_record db' row) ≡ ok r

read_response-ok :
    (which : Transaction → Bool) (db : Db) {r : Response}
    → read_response which db ≡ ok r
    → (t : Transaction) × (find which db.transactions ≡ some t)
      × (to_response [] (read_record db t) ≡ ok r)
unfolding read_response
read_response-ok which db h = or_else-eq-ok (find which db.transactions) _ _ h

pub new_sale-SaleOf :
    (actor : Actor) (party : Party) (dto : Checkout) (mode : CheckoutMode) (db : Db) (r : Response)
    (db' : Db)
    → new_sale actor party dto mode db ≡ ok (r, db')
    → SaleOf actor party dto db r db'
unfolding new_sale prepare_sale
new_sale-SaleOf actor party dto mode db r db' h =
    let (sale, prepared, h1) = reads-bind (prepare_sale actor party dto mode) _ db h in
    let (id, mid, persisted, h2) =
      bind-ok (persist_sale actor dto sale.items sale.totals) _ db h1 in
    let (id_eq, stored, covered) = persist_sale-ok actor dto sale.items sale.totals db persisted in
    let (shown, same) = lift-ok _ mid h2 in
    let shown' =
      subst₂ (λ n d. read_response (λ t. t.id == n && t.tenant_id == actor.tenant_id) d ≡ ok r)
        id_eq (sym same) shown in
    let (row, found, full) = read_response-ok _ db' shown' in
    record {
      sale = sale;
      prepared = prepare_sale-IsPrepared actor party dto mode db prepared;
      stored = same ∙ stored;
      covered = covered;
      row = row;
      found = found;
      shown = full;
    }
