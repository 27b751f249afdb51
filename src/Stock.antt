-- ===== src/Stock.antt =====
-- src/stock/stock.service.ts: manual adjustments of the stock of a product at an outlet.
pub mod Conservation
use kasirk_backend.Base.{
  ℕ, suc, ◌+◌, ◌-◌, Bool, true, false, ◌&&◌, ◌||◌, not, List, [], ◌∷◌, ◌++◌, Option, some,
  if◌then◌else◌, ◌==◌, leb, find, any, update, count_where, select,
}
use kasirk_backend.Base.Int.{ℤ, pos, neg, pos_part, neg_part}
use kasirk_backend.Base.Text.{Text}
use kasirk_backend.Common.Errors
use kasirk_backend.Common.Errors.{
  Result, ok, prisma, p2025, not_found, conflict, outlet_not_found, product_not_found,
  user_not_found, stock_tracking_disabled, adjustment_insufficient_stock,
}
use kasirk_backend.Database.Rows.{
  Db, ProductStock, StockMovement, StockAdjustment, AdjustmentType, add, deduct, adjustment,
}
use kasirk_backend.Database.Client.{Tx, ◌>>=◌, ◌>>◌, pure, gets, modify, raise_if, reads}
use kasirk_backend.Transactions.Persist.{Actor, stock_row}
use kasirk_backend.Transactions.Dto.{get_or}

pub record AdjustmentDto : Type 0 where
  pub outlet_id : ℕ
  pub product_id : ℕ
  pub adjustment_type : AdjustmentType
  pub quantity : ℕ
  pub reason : Option Text

-- "Manual stock adjustment"
abbrev pub default_reason : Text
default_reason =
    77 ∷ 97 ∷ 110 ∷ 117 ∷ 97 ∷ 108 ∷ 32 ∷ 115 ∷ 116 ∷ 111 ∷ 99 ∷ 107 ∷ 32 ∷ 97 ∷ 100 ∷ 106 ∷ 117
    ∷ 115 ∷ 116 ∷ 109 ∷ 101 ∷ 110 ∷ 116 ∷ []

abbrev pub is_add : AdjustmentType → Bool
is_add add = true
is_add deduct = false

abbrev pub delta : AdjustmentDto → ℤ
delta d = if is_add d.adjustment_type then pos d.quantity else neg d.quantity

-- `createMany` with `skipDuplicates`: the row of the outlet and product, at 0, if there is none.
unfoldable pub ensure_row : AdjustmentDto → List ProductStock → List ProductStock
ensure_row d rows =
    if any (λ s. s.outlet_id == d.outlet_id && s.product_id == d.product_id) rows
    then rows
    else rows ++ record { outlet_id = d.outlet_id; product_id = d.product_id; stock = 0 } ∷ []

-- `stock + delta`, where a row that a deduction may change holds enough.
abbrev pub shifted : ℕ → ℤ → ℕ
shifted n z = n + pos_part z - neg_part z

-- `stock: { increment: delta }`
unfoldable pub apply_delta : AdjustmentDto → ProductStock → ProductStock
apply_delta d s = record s { stock = shifted s.stock (delta d) }

-- A deduction changes only a row that holds enough.
unfoldable pub adjustable : Actor → AdjustmentDto → Db → ProductStock → Bool
adjustable user d db s =
    stock_row user.tenant_id d.outlet_id d.product_id db s
    && (is_add d.adjustment_type || leb d.quantity s.stock)

unfoldable pub adjust_rows : Actor → AdjustmentDto → Tx (Unit {0})
unfolding ensure_row apply_delta adjustable
adjust_rows user d = do
  db ← gets (λ db. db)
  let rows = if is_add d.adjustment_type then ensure_row d db.product_stocks else db.product_stocks
  modify λ db'. record db' { product_stocks = update (adjustable user d db) (apply_delta d) rows }
  raise_if (not (count_where (adjustable user d db) rows == 1))
      (conflict adjustment_insufficient_stock)

abbrev pub movement_row : Actor → AdjustmentDto → ℕ → StockMovement
movement_row user d id = record {
  tenant_id = user.tenant_id;
  outlet_id = d.outlet_id;
  product_id = d.product_id;
  user_id = user.sub;
  type = adjustment;
  quantity = delta d;
  reference_id = id;
  reason = some (get_or d.reason default_reason);
}

abbrev pub adjustment_row : Actor → AdjustmentDto → ℕ → StockAdjustment
adjustment_row user d id = record {
  id = id;
  tenant_id = user.tenant_id;
  outlet_id = d.outlet_id;
  product_id = d.product_id;
  user_id = user.sub;
  type = d.adjustment_type;
  quantity = d.quantity;
  reason = get_or d.reason default_reason;
}

unfoldable pub log_adjustment : Actor → AdjustmentDto → Tx (Unit {0})
log_adjustment user d db = ok (
  tt,
  record db {
    stock_adjustments = db.stock_adjustments ++ adjustment_row user d db.next_id ∷ [];
    stock_movements = db.stock_movements ++ movement_row user d db.next_id ∷ [];
    next_id = suc db.next_id;
  },
)

-- What `createAdjustment` reads before it writes.
unfoldable pub check_adjustment : Actor → AdjustmentDto → Db → Result (Unit {0})
check_adjustment user d db =
    Errors.◌>>◌
      (Errors.raise_if
        (not (any (λ o. o.id == d.outlet_id && o.tenant_id == user.tenant_id) db.outlets))
        (not_found outlet_not_found))
      (Errors.◌>>=◌
        (Errors.or_raise
          (find (λ p. p.id == d.product_id && p.tenant_id == user.tenant_id) db.products)
          (not_found product_not_found))
        λ product.
          Errors.◌>>◌
            (Errors.raise_if (not product.track_stock)
              (conflict (stock_tracking_disabled product.id)))
            (Errors.raise_if
              (not (any (λ u. u.id == user.sub && u.tenant_id == user.tenant_id) db.users))
              (not_found user_not_found)))

-- `findFirstOrThrow`
unfoldable pub read_stock : Actor → AdjustmentDto → Db → Result ProductStock
read_stock user d db =
    Errors.or_else (find (stock_row user.tenant_id d.outlet_id d.product_id db) db.product_stocks)
      (prisma p2025)

-- `createAdjustment`
unfoldable pub create_adjustment : Actor → AdjustmentDto → Tx ProductStock
unfolding adjust_rows log_adjustment
create_adjustment user d = do
  reads (check_adjustment user d)
  adjust_rows user d
  log_adjustment user d
  reads (read_stock user d)

-- `findByOutlet`
unfoldable pub find_by_outlet : Actor → ℕ → Tx (List ProductStock)
find_by_outlet user outlet = do
  db ← gets (λ db. db)
  raise_if (not (any (λ o. o.id == outlet && o.tenant_id == user.tenant_id) db.outlets))
      (not_found outlet_not_found)
  pure (
      select
        (λ s.
          s.outlet_id == outlet
          && any (λ p. p.id == s.product_id && p.tenant_id == user.tenant_id) db.products)
        db.product_stocks)
