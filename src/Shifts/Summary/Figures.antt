-- ===== src/Shifts/Summary/Figures.antt =====
-- The figures of `deriveSummary`.
use kasirk_backend.Base.{
  ℕ, ◌+◌, ◌≡◌, sym, ap, refl, List, [], ◌∷◌, Option, arith, ◌∙◌, if◌then◌else◌, select, sum_by,
  length,
}
use kasirk_backend.Base.Int.{ℤ, pos}
use kasirk_backend.Base.Text.{Text}
use kasirk_backend.Common.Errors.{ok, ok-inj, >>=-eq-ok}
use kasirk_backend.Database.Rows.{
  Db, CashierSession, Payment, PaymentMethod, cash, qris, edc, method_eq, TransactionItem,
}
use kasirk_backend.Shifts.Access.{safe_money}
use kasirk_backend.Shifts.Summary.{
  Sold, ShiftSummary, item_name, of_session, method_total, sales_payments, add_sold, collect_sold,
  sales_items, derive_summary,
}

by_method :
    (m : PaymentMethod) (amount : ℕ)
    → (if method_eq m cash then amount else 0)
        + (if method_eq m qris then amount else 0)
        + (if method_eq m edc then amount else 0)
      ≡ amount
by_method cash amount = omega arith
by_method qris amount = omega arith
by_method edc amount = omega arith

-- Every payment counts for one method.
method_total-sum :
    (ps : List Payment)
    → method_total cash ps + method_total qris ps + method_total edc ps ≡ sum_by (λ p. p.amount) ps
unfolding method_total
method_total-sum [] = refl
method_total-sum (p ∷ ps) = omega (arith, by_method p.method p.amount, method_total-sum ps)

abbrev pub sold_quantity : List Sold → ℕ
sold_quantity = sum_by (λ s. s.quantity)

add_sold-quantity :
    (product : ℕ) (name : Option Text) (q : ℕ) (m : List Sold)
    → sold_quantity (add_sold product name q m) ≡ sold_quantity m + q
unfolding add_sold
add_sold-quantity product name q [] = omega arith
add_sold-quantity product name q (s ∷ m) = ground (arith, add_sold-quantity product name q m)

collect_sold-quantity :
    (db : Db) (m : List Sold) (items : List TransactionItem)
    → sold_quantity (collect_sold db m items) ≡ sold_quantity m + sum_by (λ i. i.quantity) items
unfolding collect_sold
collect_sold-quantity db m [] = omega arith
collect_sold-quantity db m (i ∷ items) = omega (
  arith,
  collect_sold-quantity db (add_sold i.product_id (item_name db i) i.quantity m) items,
  add_sold-quantity i.product_id (item_name db i) i.quantity m,
)

safe_money-ok : (v m : ℤ) → safe_money v ≡ ok m → m ≡ v
unfolding safe_money
safe_money-ok v m h = ground arith

-- A shift's summary that is derived counts the completed transactions of the shift and the sum of
-- their totals; its three method totals add up to the paid payments of these transactions, and the
-- quantities of its products to those of their lines.
pub derive_summary-figures :
    (tenant : ℕ) (s : CashierSession) (db : Db) (r : ShiftSummary)
    → derive_summary tenant s db ≡ ok r
    → let sales = select (of_session tenant s.id) db.transactions in
      (in_cash : ℕ) × (in_qris : ℕ) × (in_edc : ℕ) × (r.cash_total ≡ pos in_cash)
      × (r.qris_total ≡ pos in_qris)
      × (r.edc_total ≡ pos in_edc)
      × (in_cash + in_qris + in_edc
          ≡ sum_by (λ p. p.amount) (sales_payments tenant sales db.payments))
      × (r.sales ≡ pos (sum_by (λ t. t.total) sales))
      × (r.transaction_count ≡ length sales)
      × (sold_quantity r.products
          ≡ sum_by (λ i. i.quantity) (sales_items tenant sales db.transaction_items))
unfolding derive_summary
derive_summary-figures tenant s db r h =
    let sales = select (of_session tenant s.id) db.transactions in
    let payments = sales_payments tenant sales db.payments in
    let (total, t, h1) = >>=-eq-ok (safe_money (pos (sum_by (λ t. t.total) sales))) _ h in
    let (c, cc1, h2) = >>=-eq-ok (safe_money (pos (method_total cash payments))) _ h1 in
    let (q, qq, h3) = >>=-eq-ok (safe_money (pos (method_total qris payments))) _ h2 in
    let (e, ee, h4) = >>=-eq-ok (safe_money (pos (method_total edc payments))) _ h3 in
    let shown = ok-inj h4 in
    (
      method_total cash payments,
      method_total qris payments,
      method_total edc payments,
      sym (ap (λ (x : ShiftSummary). x.cash_total) shown) ∙ safe_money-ok _ c cc1,
      sym (ap (λ (x : ShiftSummary). x.qris_total) shown) ∙ safe_money-ok _ q qq,
      sym (ap (λ (x : ShiftSummary). x.edc_total) shown) ∙ safe_money-ok _ e ee,
      method_total-sum payments,
      sym (ap (λ (x : ShiftSummary). x.sales) shown) ∙ safe_money-ok _ total t,
      sym (ap (λ (x : ShiftSummary). x.transaction_count) shown),
      sym (ap (λ (x : ShiftSummary). sold_quantity x.products) shown)
          ∙ collect_sold-quantity db [] (sales_items tenant sales db.transaction_items)
          ∙ omega arith,
    )
