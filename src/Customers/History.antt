-- ===== src/Customers/History.antt =====
-- `transactionHistory` of customers.service.ts.
use kasirk_backend.Base.{
  ℕ, suc, ◌+◌, ◌≤◌, ◌≡◌, refl, sym, ap, ap₂, subst, ◌∙◌, ◌&&◌, Bool, List, [], ◌∷◌, some, arith,
  if◌then◌else◌, ◌==◌, opt_eq, leb, ltb, length, sum_by, select,
}
use kasirk_backend.Base.Sort.{sort, sum_by-sort, length-sort}
use kasirk_backend.Base.Text.{IdText}
use kasirk_backend.Common.Errors
use kasirk_backend.Common.Errors.{
  Result, ok, err, http, internal_error, customer_value_out_of_range, ok-inj, ok-pair, >>=-eq-ok,
}
use kasirk_backend.Common.Roles.{is_manager}
use kasirk_backend.Database.Rows.{Db, Transaction, is_completed}
use kasirk_backend.Database.Client.{Tx, ◌>>=◌, ◌>>◌, lift, reads, reads-bind, bind-ok, lift-ok}
use kasirk_backend.Transactions.Dto.{max_safe_integer}
use kasirk_backend.Transactions.Create.{JwtPayload}
use kasirk_backend.Customers.Store.{tenant_context, customer_id, find_customer}

-- `money`
unfoldable pub money : ℕ → Result ℕ
money v =
    if ltb max_safe_integer v then err (http (internal_error customer_value_out_of_range)) else ok v

pub record Purchase : Type 0 where
  pub transaction_id : ℕ
  pub outlet_id : ℕ
  pub user_id : ℕ
  pub subtotal : ℕ
  pub discount : ℕ
  pub tax : ℕ
  pub total : ℕ
  pub created_at : ℕ

pub record HistoryResponse : Type 0 where
  pub customer_id : ℕ
  pub transactions : List Purchase
  pub total_transactions : ℕ
  pub total_spending : ℕ

-- `where`
unfoldable pub bought : ℕ → ℕ → Transaction → Bool
bought tenant customer t =
    t.tenant_id == tenant && opt_eq t.customer_id (some customer) && is_completed t.status

-- `orderBy: [{ created_at: 'desc' }, { id: 'desc' }]`
unfoldable pub latest_first : Transaction → Transaction → Bool
latest_first a b =
    if a.created_at == b.created_at then leb b.id a.id else leb b.created_at a.created_at

unfoldable pub to_purchase : Transaction → Result Purchase
unfolding money
to_purchase t = Errors.◌>>=◌ (money t.subtotal) λ subtotal.
    Errors.◌>>=◌ (money t.discount) λ discount. Errors.◌>>=◌ (money t.tax) λ tax.
      Errors.◌>>=◌ (money t.total) λ total. ok (record {
        transaction_id = t.id;
        outlet_id = t.outlet_id;
        user_id = t.user_id;
        subtotal = subtotal;
        discount = discount;
        tax = tax;
        total = total;
        created_at = t.created_at;
      })

unfoldable pub to_purchases : List Transaction → Result (List Purchase)
unfolding to_purchase
to_purchases [] = ok []
to_purchases (t ∷ ts) =
    Errors.◌>>=◌ (to_purchase t) λ p. Errors.◌>>=◌ (to_purchases ts) λ ps. ok (p ∷ ps)

-- The aggregate and the list of one customer's sales.
unfoldable pub read_history : ℕ → ℕ → Db → Result HistoryResponse
unfolding bought latest_first to_purchases sort money
read_history tenant customer db =
    let sales = select (bought tenant customer) db.transactions in
    Errors.◌>>=◌ (to_purchases (sort latest_first sales)) λ purchases.
      Errors.◌>>=◌ (money (sum_by (λ t. t.total) sales)) λ spending. ok (record {
        customer_id = customer;
        transactions = purchases;
        total_transactions = length sales;
        total_spending = spending;
      })

-- `transactionHistory`
unfoldable pub transaction_history : JwtPayload → IdText → Tx HistoryResponse
unfolding customer_id tenant_context find_customer read_history
transaction_history user id = do
  customer ← lift (customer_id id)
  tenant ← reads (tenant_context user is_manager)
  reads (find_customer tenant customer)
  reads (read_history tenant customer)

-- A purchase as it is shown, of a sale of the table.
pub record IsShown (t : Transaction) (p : Purchase) : Type 0 where
  pub same_id : p.transaction_id ≡ t.id
  pub same_total : p.total ≡ t.total
  pub same_place :
      (p.outlet_id ≡ t.outlet_id) × (p.user_id ≡ t.user_id) × (p.created_at ≡ t.created_at)
  pub same_parts : (p.subtotal ≡ t.subtotal) × (p.discount ≡ t.discount) × (p.tax ≡ t.tax)
  pub safe :
      (t.subtotal ≤ max_safe_integer)
      × (t.discount ≤ max_safe_integer)
      × (t.tax ≤ max_safe_integer)
      × (t.total ≤ max_safe_integer)

abbrev pub AreShown : List Transaction → List Purchase → Type 0
AreShown [] [] = Unit
AreShown (t ∷ ts) (p ∷ ps) = IsShown t p × AreShown ts ps
AreShown _ _ = ⊥

to_purchase-IsShown : (t : Transaction) (p : Purchase) → to_purchase t ≡ ok p → IsShown t p
unfolding to_purchase money
to_purchase-IsShown t p h = ground arith

to_purchases-AreShown :
    (ts : List Transaction) (ps : List Purchase) → to_purchases ts ≡ ok ps → AreShown ts ps
unfolding to_purchases
to_purchases-AreShown [] ps h =
    let base : AreShown [] [] = tt in subst (AreShown []) (ok-inj h) base
to_purchases-AreShown (t ∷ ts) ps h =
    let (p, e, h1) = >>=-eq-ok (to_purchase t) _ h in
    let (rest, e', h2) = >>=-eq-ok (to_purchases ts) _ h1 in
    subst (AreShown (t ∷ ts)) (ok-inj h2)
      (to_purchase-IsShown t p e, to_purchases-AreShown ts rest e')

sum_by-shown :
    (ts : List Transaction) (ps : List Purchase)
    → AreShown ts ps
    → sum_by (λ (p : Purchase). p.total) ps ≡ sum_by (λ (t : Transaction). t.total) ts
sum_by-shown [] [] h = refl
sum_by-shown [] (p ∷ ps) h = elim h [ ]
sum_by-shown (t ∷ ts) [] h = elim h [ ]
sum_by-shown (t ∷ ts) (p ∷ ps) (h, hs) = ap₂ ◌+◌ h.same_total (sum_by-shown ts ps hs)

length-shown : (ts : List Transaction) (ps : List Purchase) → AreShown ts ps → length ps ≡ length ts
length-shown [] [] h = refl
length-shown [] (p ∷ ps) h = elim h [ ]
length-shown (t ∷ ts) [] h = elim h [ ]
length-shown (t ∷ ts) (p ∷ ps) (h, hs) = ap suc (length-shown ts ps hs)

-- The history of a customer of a tenant.
pub record IsHistory (tenant customer : ℕ) (db : Db) (r : HistoryResponse) : Type 0 where
  pub shown :
      AreShown
        (sort
          (λ a b.
            if a.created_at == b.created_at then leb b.id a.id else leb b.created_at a.created_at)
          (select
            (λ t.
              t.tenant_id == tenant
              && opt_eq t.customer_id (some customer)
              && is_completed t.status)
            db.transactions))
        r.transactions
  pub count : r.total_transactions ≡ length r.transactions
  pub spending : r.total_spending ≡ sum_by (λ (p : Purchase). p.total) r.transactions
  pub safe : r.total_spending ≤ max_safe_integer

money-ok : (v m : ℕ) → money v ≡ ok m → (m ≡ v) × (m ≤ max_safe_integer)
unfolding money
money-ok v m h = ground arith

read_history-IsHistory :
    (tenant customer : ℕ) (db : Db) (r : HistoryResponse)
    → read_history tenant customer db ≡ ok r
    → IsHistory tenant customer db r
unfolding read_history bought latest_first
read_history-IsHistory tenant customer db r h =
    let sales = select (bought tenant customer) db.transactions in
    let (ps, e, h1) = >>=-eq-ok (to_purchases (sort latest_first sales)) _ h in
    let (spent, e', h2) = >>=-eq-ok (money (sum_by (λ (t : Transaction). t.total) sales)) _ h1 in
    let all = to_purchases-AreShown (sort latest_first sales) ps e in
    let (exact, small) = money-ok (sum_by (λ (t : Transaction). t.total) sales) spent e' in
    subst (IsHistory tenant customer db) (ok-inj h2) (record {
      shown = all;
      count = sym (length-shown (sort latest_first sales) ps all ∙ length-sort latest_first sales);
      spending =
          exact
          ∙ sym (
              sum_by-shown (sort latest_first sales) ps all
              ∙ sum_by-sort latest_first (λ (t : Transaction). t.total) sales);
      safe = small;
    })

-- A history that is returned is of the customer that the id names and of the manager's tenant: it
-- shows the customer's completed transactions with their amounts, outlets, users and times, the
-- latest first, their number and the sum of their totals, all amounts and the sum within 2^53 - 1.
pub transaction_history-IsHistory :
    (user : JwtPayload) (id : IdText) (db : Db) (r : HistoryResponse) (db' : Db)
    → transaction_history user id db ≡ ok (r, db')
    → (customer : ℕ) × (tenant : ℕ) × (customer_id id ≡ ok customer)
      × (tenant_context user is_manager db ≡ ok tenant)
      × IsHistory tenant customer db r
unfolding transaction_history
transaction_history-IsHistory user id db r db' h =
    let (customer, d, e, h1) = bind-ok (lift (customer_id id)) _ db h in
    let (named, same) = lift-ok (customer_id id) db e in
    let (tenant, allowed, h2) = reads-bind (tenant_context user is_manager) _ d h1 in
    let (c, found, h3) = reads-bind (find_customer tenant customer) _ d h2 in
    let (read, end) = lift-ok (read_history tenant customer d) d h3 in
    (
      customer,
      tenant,
      named,
      subst (λ x. tenant_context user is_manager x ≡ ok tenant) same allowed,
      read_history-IsHistory tenant customer db r
          (subst (λ x. read_history tenant customer x ≡ ok r) same read),
    )
