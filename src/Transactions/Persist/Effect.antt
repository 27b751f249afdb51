-- ===== src/Transactions/Persist/Effect.antt =====
-- What the writes of a sale do to the tables, as closed forms.
use mathlib.Core.List.{append-nil, append_assoc}
use native.Mathlib.Nat.{add_assoc, add-zero}
use kasirk_backend.Base.{
  ℕ, suc, ◌+◌, ◌-◌, ◌≡◌, sym, subst, ◌∙◌, Bool, ◌&&◌, List, [], ◌∷◌, ◌++◌, map, some, arith, ◌==◌,
  leb, count_where, update, length,
}
use kasirk_backend.Common.Errors.{ok, ok-pair}
use kasirk_backend.Database.Rows.{
  Db, ProductStock, Transaction, pending, completed, TransactionItem, TransactionItemModifier,
  Outlet, Product,
}
use kasirk_backend.Database.Client.{bind-ok, bind-eq, raise_if-ok}
use kasirk_backend.Transactions.Dto.{Checkout}
use kasirk_backend.Transactions.Catalog.{ValidatedItem, ResolvedOption}
use kasirk_backend.Transactions.Pricing.{Totals}
use kasirk_backend.Transactions.Persist.{
  sale_movement, stock_by_product, payment_row, persist_sale, Actor, create_items, item_row,
  create_item_modifiers, create_modifiers, decrement_stock, decrement_stocks, stock_match,
}

suc_add : (a b : ℕ) → suc a + b ≡ a + suc b
suc_add a b = omega arith

abbrev pub item_ids : ℕ → List ValidatedItem → List ℕ
item_ids n [] = []
item_ids n (vi ∷ items) = n ∷ item_ids (suc n) items

abbrev pub item_rows : ℕ → ℕ → ℕ → List ValidatedItem → List TransactionItem
item_rows tenant transaction n [] = []
item_rows tenant transaction n (vi ∷ items) =
    item_row tenant transaction n vi ∷ item_rows tenant transaction (suc n) items

create_items-eq :
    (tenant transaction : ℕ) (items : List ValidatedItem) (db : Db)
    → create_items tenant transaction items db
      ≡ ok (
        item_ids db.next_id items,
        record db {
          transaction_items = db.transaction_items ++ item_rows tenant transaction db.next_id items;
          next_id = db.next_id + length items;
        },
      )
unfolding create_items
create_items-eq tenant transaction [] db = simp (append-nil, add-zero)
create_items-eq tenant transaction (vi ∷ items) db =
    bind-eq (create_items tenant transaction items) _ _ (create_items-eq tenant transaction items _)
    ∙ rw (append_assoc, suc_add db.next_id (length items))

-- The modifier rows of one line.
abbrev pub option_row : ℕ → ℕ → ℕ → ℕ → ResolvedOption → TransactionItemModifier
option_row tenant transaction item id o = record {
  id = id;
  tenant_id = tenant;
  transaction_id = transaction;
  transaction_item_id = item;
  modifier_group_id = some o.modifier_group_id;
  modifier_option_id = some o.id;
  group_name_snapshot = o.group_name;
  option_name_snapshot = o.option_name;
  price_delta_snapshot = o.price_delta;
}

abbrev pub option_rows : ℕ → ℕ → ℕ → ℕ → List ResolvedOption → List TransactionItemModifier
option_rows tenant transaction item n [] = []
option_rows tenant transaction item n (o ∷ options) =
    option_row tenant transaction item n o ∷ option_rows tenant transaction item (suc n) options

create_item_modifiers-eq :
    (tenant transaction item : ℕ) (options : List ResolvedOption) (db : Db)
    → create_item_modifiers tenant transaction item options db
      ≡ ok (
        tt,
        record db {
          transaction_item_modifiers =
              db.transaction_item_modifiers
              ++ option_rows tenant transaction item db.next_id options;
          next_id = db.next_id + length options;
        },
      )
unfolding create_item_modifiers
create_item_modifiers-eq tenant transaction item [] db = simp (append-nil, add-zero)
create_item_modifiers-eq tenant transaction item (o ∷ options) db = rw (
  create_item_modifiers-eq tenant transaction item options _,
  append_assoc,
  suc_add db.next_id (length options),
)

-- The modifier rows of lines whose ids run from `item` on.
abbrev pub line_option_rows : ℕ → ℕ → ℕ → ℕ → List ValidatedItem → List TransactionItemModifier
line_option_rows tenant transaction item n [] = []
line_option_rows tenant transaction item n (vi ∷ items) =
    option_rows tenant transaction item n vi.options
    ++ line_option_rows tenant transaction (suc item) (n + length vi.options) items

abbrev pub options_length : List ValidatedItem → ℕ
options_length [] = 0
options_length (vi ∷ items) = length vi.options + options_length items

create_modifiers-eq :
    (tenant transaction item : ℕ) (items : List ValidatedItem) (db : Db)
    → create_modifiers tenant transaction items (item_ids item items) db
      ≡ ok (
        tt,
        record db {
          transaction_item_modifiers =
              db.transaction_item_modifiers
              ++ line_option_rows tenant transaction item db.next_id items;
          next_id = db.next_id + options_length items;
        },
      )
unfolding create_modifiers
create_modifiers-eq tenant transaction item [] db = simp (append-nil, add-zero)
create_modifiers-eq tenant transaction item (vi ∷ items) db =
    bind-eq (create_item_modifiers tenant transaction item vi.options) _ db
      (create_item_modifiers-eq tenant transaction item vi.options db)
    ∙ rw (
      create_modifiers-eq tenant transaction (suc item) items _,
      append_assoc,
      add_assoc db.next_id (length vi.options) (options_length items),
    )

-- A row from which a quantity of a product can be taken.
abbrev pub takes : ℕ → ℕ → List Outlet → List Product → ℕ → ℕ → ProductStock → Bool
takes tenant outlet outlets products product qty s =
    stock_match tenant outlet product outlets products s && leb qty s.stock

abbrev pub take_from : ℕ → ProductStock → ProductStock
take_from qty s = record s { stock = s.stock - qty }

module _ (tenant outlet : ℕ) (outlets : List Outlet) (products : List Product) where
  -- The stock rows after the products of `m` are taken from an outlet.
  abbrev pub taken : List (ℕ × ℕ) → List ProductStock → List ProductStock
  taken [] rows = rows
  taken ((product, qty) ∷ m) rows =
      taken m (update (takes tenant outlet outlets products product qty) (take_from qty) rows)

  -- Every product of `m` has exactly one row that holds enough, when its turn comes.
  abbrev pub IsCovered : List (ℕ × ℕ) → List ProductStock → Type 0
  IsCovered [] rows = Unit
  IsCovered ((product, qty) ∷ m) rows =
      (count_where (takes tenant outlet outlets products product qty) rows ≡ 1)
      × IsCovered m (update (takes tenant outlet outlets products product qty) (take_from qty) rows)

decrement_stock-ok :
    (user : Actor) (outlet product qty : ℕ) (db : Db) {u : Unit {0}} {db' : Db}
    → decrement_stock user outlet product qty db ≡ ok (u, db')
    → (count_where
          (takes user.tenant_id outlet db.outlets db.products product qty)
          db.product_stocks
        ≡ 1)
      × (db' ≡ record db {
        product_stocks =
            taken user.tenant_id outlet db.outlets db.products
              ((product, qty) ∷ [])
              db.product_stocks;
      })
unfolding decrement_stock
decrement_stock-ok user outlet product qty db h =
    let (found, e) = raise_if-ok _ _ _ h in (ground arith, e)

decrement_stocks-ok :
    (user : Actor) (outlet : ℕ) (m : List (ℕ × ℕ)) (db db' : Db)
    → decrement_stocks user outlet m db ≡ ok (tt, db')
    → (db' ≡ record db {
      product_stocks = taken user.tenant_id outlet db.outlets db.products m db.product_stocks;
    })
      × IsCovered user.tenant_id outlet db.outlets db.products m db.product_stocks
unfolding decrement_stocks
decrement_stocks-ok user outlet [] db db' h = (ground arith, tt)
decrement_stocks-ok user outlet ((product, qty) ∷ m) db db' h =
    let (u, mid, one, rest) = bind-ok (decrement_stock user outlet product qty) _ db h in
    let (enough, e) = decrement_stock-ok user outlet product qty db one in
    let (e', covered) =
      subst
        (λ d.
          (db' ≡ record d {
            product_stocks = taken user.tenant_id outlet d.outlets d.products m d.product_stocks;
          })
          × IsCovered user.tenant_id outlet d.outlets d.products m d.product_stocks)
        e (decrement_stocks-ok user outlet m mid db' rest) in
    (e', (enough, covered))

-- The tables after the writes of a sale that began at `db`.
abbrev pub sale_items : Actor → Db → List ValidatedItem → List TransactionItem
sale_items user db items = item_rows user.tenant_id db.next_id (suc db.next_id) items

abbrev pub sale_modifiers : Actor → Db → List ValidatedItem → List TransactionItemModifier
sale_modifiers user db items =
    line_option_rows user.tenant_id db.next_id (suc db.next_id) (suc db.next_id + length items)
      items

abbrev pub sale_row : Actor → Checkout → Totals → Db → Transaction
sale_row user dto t db = record {
  id = db.next_id;
  tenant_id = user.tenant_id;
  outlet_id = dto.outlet_id;
  user_id = user.sub;
  customer_id = dto.customer_id;
  cashier_session_id = dto.cashier_session_id;
  client_transaction_id = dto.client_transaction_id;
  status = pending;
  subtotal = t.subtotal;
  discount = t.discount;
  tax = t.tax;
  total = t.total;
  created_at = db.clock;
}

abbrev pub payment_id : Db → List ValidatedItem → ℕ
payment_id db items = suc db.next_id + length items + options_length items

abbrev pub sold : Actor → Checkout → List ValidatedItem → Totals → Db → Db
sold user dto items t db = record db {
  transactions =
      update (λ r. r.id == db.next_id && r.tenant_id == user.tenant_id)
        (λ r. record r { status = completed }) (db.transactions ++ sale_row user dto t db ∷ []);
  transaction_items = db.transaction_items ++ sale_items user db items;
  transaction_item_modifiers = db.transaction_item_modifiers ++ sale_modifiers user db items;
  product_stocks =
      taken user.tenant_id dto.outlet_id db.outlets db.products (stock_by_product items)
        db.product_stocks;
  stock_movements =
      db.stock_movements
      ++ map (sale_movement user dto.outlet_id db.next_id) (stock_by_product items);
  payments =
      db.payments
      ++ payment_row user.tenant_id db.next_id dto.payment t (payment_id db items) db.clock ∷ [];
  next_id = suc (payment_id db items);
}

abbrev created : Actor → Checkout → Totals → Db → Db
created user dto t db = record db {
  transactions = db.transactions ++ sale_row user dto t db ∷ [];
  next_id = suc db.next_id;
}

abbrev with_items : Actor → ℕ → List ValidatedItem → Db → Db
with_items user transaction items db = record db {
  transaction_items = db.transaction_items ++ item_rows user.tenant_id transaction db.next_id items;
  next_id = db.next_id + length items;
}

pub persist_sale-ok :
    (user : Actor) (dto : Checkout) (items : List ValidatedItem) (t : Totals) (db : Db) {id : ℕ}
    {db' : Db}
    → persist_sale user dto items t db ≡ ok (id, db')
    → (id ≡ db.next_id)
      × (db' ≡ sold user dto items t db)
      × IsCovered user.tenant_id dto.outlet_id db.outlets db.products
          (stock_by_product items)
          db.product_stocks
unfolding persist_sale
persist_sale-ok user dto items t db {id} {db'} h =
    let made = created user dto t db in
    let lined = with_items user db.next_id items made in
    let h1 =
      sym (
        bind-eq (create_items user.tenant_id db.next_id items) _ made
          (create_items-eq user.tenant_id db.next_id items made))
      ∙ h in
    let h2 =
      sym (
        bind-eq (create_modifiers user.tenant_id db.next_id items (item_ids (suc db.next_id) items))
          _ lined (create_modifiers-eq user.tenant_id db.next_id (suc db.next_id) items lined))
      ∙ h1 in
    let (u, stocked, one, rest) =
      bind-ok (decrement_stocks user dto.outlet_id (stock_by_product items)) _ _ h2 in
    let (e, covered) =
      decrement_stocks-ok user dto.outlet_id (stock_by_product items) _ stocked one in
    let (same, final) = ok-pair rest in (sym same, sym final ∙ rw e, covered)
