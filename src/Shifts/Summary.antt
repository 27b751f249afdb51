-- ===== src/Shifts/Summary.antt =====
-- `deriveSummary` and `summary` of shifts.service.ts: what was sold in a session.
pub mod Figures
use kasirk_backend.Base.{
  ℕ, ◌+◌, Bool, ◌&&◌, not, List, [], ◌∷◌, ◌++◌, Option, none, some, if◌then◌else◌, ◌==◌, opt_eq,
  find, select, sum_by, length,
}
use kasirk_backend.Base.Int.{ℤ, pos}
use kasirk_backend.Base.Text.{IdText, uuid, malformed, lower_case, Text}
use kasirk_backend.Common.Errors.{
  Result, ok, err, http, ◌>>=◌, ◌>>◌, raise_if, or_raise, bad_request, forbidden, not_found,
  invalid_id, shift_not_found, shift_access_denied,
}
use kasirk_backend.Common.Roles.{is_cashier}
use kasirk_backend.Database.Rows.{
  Db, CashierSession, SessionStatus, Transaction, TransactionItem, Payment, PaymentMethod, cash,
  qris, edc, method_eq, is_completed, is_paid,
}
use kasirk_backend.Shifts.Access.{actor_context, safe_money}

-- A product's line of the summary; no name stands for "Unknown product".
pub record Sold : Type 0 where
  pub product_id : ℕ
  pub product_name : Option Text
  pub quantity : ℕ

pub record ShiftSummary : Type 0 where
  pub shift_id : ℕ
  pub status : SessionStatus
  pub transaction_count : ℕ
  pub sales : ℤ
  pub cash_total : ℤ
  pub qris_total : ℤ
  pub edc_total : ℤ
  pub products : List Sold

-- The completed transactions that are linked to the session.
unfoldable pub of_session : ℕ → ℕ → Transaction → Bool
of_session tenant session t =
    t.tenant_id == tenant && opt_eq t.cashier_session_id (some session) && is_completed t.status

unfoldable pub paid_for : ℕ → Transaction → Payment → Bool
paid_for tenant t p = p.transaction_id == t.id && p.tenant_id == tenant && is_paid p.status

-- The amounts of one method over the payments of the sales.
unfoldable pub method_total : PaymentMethod → List Payment → ℕ
method_total m [] = 0
method_total m (p ∷ ps) = (if method_eq p.method m then p.amount else 0) + method_total m ps

unfoldable pub sales_payments : ℕ → List Transaction → List Payment → List Payment
unfolding paid_for
sales_payments tenant [] ps = []
sales_payments tenant (t ∷ ts) ps = select (paid_for tenant t) ps ++ sales_payments tenant ts ps

-- `item.product_name_snapshot ?? item.products?.name ?? 'Unknown product'`
unfoldable pub item_name : Db → TransactionItem → Option Text
item_name db i = elim i.product_name_snapshot [
  | some name ↦ some name
  | none ↦ elim (find (λ p. p.id == i.product_id && p.tenant_id == i.tenant_id) db.products) [
    | some p ↦ some p.name
    | none ↦ none
  ]
]

-- The entry of a product in the map: added to, or made.
unfoldable pub add_sold : ℕ → Option Text → ℕ → List Sold → List Sold
add_sold product name quantity [] =
    record { product_id = product; product_name = name; quantity = quantity } ∷ []
add_sold product name quantity (s ∷ m) =
    if s.product_id == product
    then record s {
      product_name = elim s.product_name [ some n ↦ some n | none ↦ name ];
      quantity = s.quantity + quantity;
    }
      ∷ m
    else s ∷ add_sold product name quantity m

unfoldable pub collect_sold : Db → List Sold → List TransactionItem → List Sold
unfolding item_name add_sold
collect_sold db m [] = m
collect_sold db m (i ∷ items) =
    collect_sold db (add_sold i.product_id (item_name db i) i.quantity m) items

unfoldable pub sales_items : ℕ → List Transaction → List TransactionItem → List TransactionItem
sales_items tenant [] items = []
sales_items tenant (t ∷ ts) items =
    select (λ i. i.transaction_id == t.id && i.tenant_id == tenant) items
    ++ sales_items tenant ts items

unfoldable pub derive_summary : ℕ → CashierSession → Db → Result ShiftSummary
unfolding of_session method_total sales_payments collect_sold sales_items safe_money
derive_summary tenant s db =
    let sales = select (of_session tenant s.id) db.transactions in
    let payments = sales_payments tenant sales db.payments in
    do
      total ← safe_money (pos (sum_by (λ t. t.total) sales))
      in_cash ← safe_money (pos (method_total cash payments))
      in_qris ← safe_money (pos (method_total qris payments))
      in_edc ← safe_money (pos (method_total edc payments))
      ok (record {
        shift_id = s.id;
        status = s.status;
        transaction_count = length sales;
        sales = total;
        cash_total = in_cash;
        qris_total = in_qris;
        edc_total = in_edc;
        products = collect_sold db [] (sales_items tenant sales db.transaction_items);
      })

-- `summary`
unfoldable pub summary : IdText → IdText → IdText → Db → Result ShiftSummary
unfolding derive_summary
summary sub tenant (malformed _) db = err (http (bad_request invalid_id))
summary sub tenant (uuid id) db = do
  actor ← actor_context sub tenant db
  s ←
      or_raise
        (find (λ s. s.id == lower_case id && s.tenant_id == actor.tenant_id) db.cashier_sessions)
        (not_found shift_not_found)
  raise_if (is_cashier actor.role && not (s.user_id == actor.user_id))
      (forbidden shift_access_denied)
  derive_summary actor.tenant_id s db
