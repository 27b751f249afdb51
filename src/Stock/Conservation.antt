-- ===== src/Stock/Conservation.antt =====
-- `createAdjustment`: what the rows of a product hold before and after.
use kasirk_backend.Base.{
  ℕ, ◌+◌, ◌≡◌, refl, sym, ap, ◌∙◌, Bool, true, false, ◌&&◌, not, List, [], ◌∷◌, ◌++◌, arith, ◌==◌,
  if◌then◌else◌, any, update, count_where, sum_by, sum_by-append, Bool-cases, inl, inr,
}
use kasirk_backend.Common.Errors.{ok}
use kasirk_backend.Database.Rows.{
  Db, ProductStock, StockMovement, StockAdjustment, AdjustmentType, add, deduct,
}
use kasirk_backend.Base.Int.{pos, neg, pos_part, neg_part}
use kasirk_backend.Database.Client.{reads-bind, bind-ok, raise_if-ok, lift-ok}
use kasirk_backend.Transactions.Persist.{Actor}
use kasirk_backend.Transactions.Persist.StockEffect.{on_hand}
use kasirk_backend.Stock.{
  AdjustmentDto, is_add, adjustment_row, ensure_row, apply_delta, movement_row, adjustable,
  adjust_rows, log_adjustment, check_adjustment, read_stock, create_adjustment,
}

-- Two sums whose terms differ by `q` at the one element that a test picks.
sum_differs_none :
    {A : Type 0} (p : A → Bool) (u v : A → ℕ) (q : ℕ)
    → ((x : A) → p x ≡ false → u x ≡ v x)
    → (xs : List A) → count_where p xs ≡ 0
    → sum_by u xs ≡ sum_by v xs
sum_differs_none p u v q same [] h = refl
sum_differs_none p u v q same (x ∷ xs) h = elim (Bool-cases (p x)) [
  | inl hit ↦ ground arith
  | inr miss ↦ ground (arith, same x miss, sum_differs_none p u v q same xs)
]

sum_differs_one :
    {A : Type 0} (p : A → Bool) (u v : A → ℕ) (q : ℕ)
    → ((x : A) → p x ≡ true → u x ≡ v x + q)
    → ((x : A) → p x ≡ false → u x ≡ v x)
    → (xs : List A) → count_where p xs ≡ 1
    → sum_by u xs ≡ sum_by v xs + q
sum_differs_one p u v q other same [] h = ground arith
sum_differs_one p u v q other same (x ∷ xs) h = elim (Bool-cases (p x)) [
  | inl hit ↦ ground (arith, other x hit, sum_differs_none p u v q same xs)
  | inr miss ↦ ground (arith, same x miss, sum_differs_one p u v q other same xs)
]

sum_by-update :
    {A : Type 0} (p : A → Bool) (f : A → A) (v : A → ℕ) (xs : List A)
    → sum_by v (update p f xs) ≡ sum_by (λ x. v (if p x then f x else x)) xs
sum_by-update p f v [] = refl
sum_by-update p f v (x ∷ xs) = ap (λ n. v (if p x then f x else x) + n) (sum_by-update p f v xs)

abbrev pub held : Actor → AdjustmentDto → Db → List ProductStock → ℕ
held user d db = on_hand user.tenant_id d.outlet_id db.outlets db.products d.product_id

-- The row that an addition makes sure of holds nothing yet.
ensure_row-held :
    (user : Actor) (d : AdjustmentDto) (db : Db) (rows : List ProductStock)
    → held user d db (ensure_row d rows) ≡ held user d db rows
unfolding ensure_row
ensure_row-held user d db rows =
    elim (Bool-cases (any (λ s. s.outlet_id == d.outlet_id && s.product_id == d.product_id) rows)) [
      | inl there ↦ rw there
      | inr missing ↦ rw missing (
          sum_by-append _ rows
            (record { outlet_id = d.outlet_id; product_id = d.product_id; stock = 0 } ∷ [])
          ∙ ground arith)
    ]

added :
    (user : Actor) (d : AdjustmentDto) (db : Db) (rows : List ProductStock)
    → is_add d.adjustment_type ≡ true
    → count_where (adjustable user d db) rows ≡ 1
    → held user d db (update (adjustable user d db) (apply_delta d) rows)
      ≡ held user d db rows + d.quantity
unfolding adjustable apply_delta
added user d db rows e one =
    sum_by-update (adjustable user d db) (apply_delta d) _ rows
    ∙ sum_differs_one (adjustable user d db) _ _ d.quantity (λ x hit. ground arith)
        (λ x miss. ground arith) rows one

deducted :
    (user : Actor) (d : AdjustmentDto) (db : Db) (rows : List ProductStock)
    → is_add d.adjustment_type ≡ false
    → count_where (adjustable user d db) rows ≡ 1
    → held user d db rows
      ≡ held user d db (update (adjustable user d db) (apply_delta d) rows) + d.quantity
unfolding adjustable apply_delta
deducted user d db rows e one =
    sum_differs_one (adjustable user d db) _ _ d.quantity (λ x hit. ground arith)
      (λ x miss. ground arith) rows one
    ∙ ap (λ n. n + d.quantity) (sym (sum_by-update (adjustable user d db) (apply_delta d) _ rows))

-- The tables after the stock rows were adjusted.
abbrev adjusted : Actor → AdjustmentDto → Db → List ProductStock → Db
adjusted user d db rows = record db {
  product_stocks = update (adjustable user d db) (apply_delta d) rows;
}

abbrev start_rows : AdjustmentDto → Db → List ProductStock
start_rows d db =
    if is_add d.adjustment_type then ensure_row d db.product_stocks else db.product_stocks

start_add :
    (d : AdjustmentDto) (db : Db)
    → is_add d.adjustment_type ≡ true
    → start_rows d db ≡ ensure_row d db.product_stocks
start_add d db e = rw e

start_deduct :
    (d : AdjustmentDto) (db : Db)
    → is_add d.adjustment_type ≡ false
    → start_rows d db ≡ db.product_stocks
start_deduct d db e = rw e

adjust_rows-ok :
    (user : Actor) (d : AdjustmentDto) (db db' : Db) {u : Unit {0}}
    → adjust_rows user d db ≡ ok (u, db')
    → (count_where (adjustable user d db) (start_rows d db) ≡ 1)
      × (db' ≡ adjusted user d db (start_rows d db))
unfolding adjust_rows
adjust_rows-ok user d db db' h =
    let (one, e) =
      raise_if-ok (not (count_where (adjustable user d db) (start_rows d db) == 1)) _ _ h in
    (ground arith, e)

-- What an addition puts in, and what a deduction takes out.
abbrev pub put_in : AdjustmentDto → ℕ
put_in d = elim d.adjustment_type [ add ↦ d.quantity | deduct ↦ 0 ]

abbrev pub taken_out : AdjustmentDto → ℕ
taken_out d = elim d.adjustment_type [ add ↦ 0 | deduct ↦ d.quantity ]

-- The movement of an adjustment, which names it, and whose signed quantity is the change.
pub record IsMovement (user : Actor) (d : AdjustmentDto) (id : ℕ) (m : StockMovement) : Type 0 where
  pub place :
      (m.tenant_id ≡ user.tenant_id) × (m.outlet_id ≡ d.outlet_id) × (m.product_id ≡ d.product_id)
  pub by : m.user_id ≡ user.sub
  pub reference : m.reference_id ≡ id
  pub up : pos_part m.quantity ≡ put_in d
  pub down : neg_part m.quantity ≡ taken_out d

signed_up :
    (t : AdjustmentType) (q : ℕ)
    → pos_part (if is_add t then pos q else neg q) ≡ elim t [ add ↦ q | deduct ↦ 0 ]
signed_up add q = refl
signed_up deduct q = ground arith

signed_down :
    (t : AdjustmentType) (q : ℕ)
    → neg_part (if is_add t then pos q else neg q) ≡ elim t [ add ↦ 0 | deduct ↦ q ]
signed_down add q = refl
signed_down deduct q = ground arith

movement_row-IsMovement :
    (user : Actor) (d : AdjustmentDto) (id : ℕ) → IsMovement user d id (movement_row user d id)
movement_row-IsMovement user d id = record {
  place = (refl, refl, refl);
  by = refl;
  reference = refl;
  up = signed_up d.adjustment_type d.quantity;
  down = signed_down d.adjustment_type d.quantity;
}

adjusted-held :
    (user : Actor) (d : AdjustmentDto) (db : Db)
    → count_where (adjustable user d db) (start_rows d db) ≡ 1
    → held user d db (adjusted user d db (start_rows d db)).product_stocks + taken_out d
      ≡ held user d db db.product_stocks + put_in d
adjusted-held user d db one = elim (Bool-cases (is_add d.adjustment_type)) [
  | inl up ↦ ground (
    arith,
    ap (λ r. held user d db (update (adjustable user d db) (apply_delta d) r)) (start_add d db up),
    added user d db (ensure_row d db.product_stocks) up
        (ap (count_where (adjustable user d db)) (sym (start_add d db up)) ∙ one),
    ensure_row-held user d db db.product_stocks,
  )
  | inr down ↦ ground (
    arith,
    ap (λ r. held user d db (update (adjustable user d db) (apply_delta d) r))
        (start_deduct d db down),
    deducted user d db db.product_stocks down
        (ap (count_where (adjustable user d db)) (sym (start_deduct d db down)) ∙ one),
  )
]

-- An adjustment that succeeds changes what the rows of its product at the outlet hold by its
-- quantity, up for ADD and down for DEDUCT (which takes no more than they hold), writes one
-- adjustment row of that type and quantity, and one movement of that signed change, of its
-- product, outlet and user, which names that row.
pub create_adjustment_stock :
    (user : Actor) (d : AdjustmentDto) (db db' : Db) (s : ProductStock)
    → create_adjustment user d db ≡ ok (s, db')
    → (held user d db db'.product_stocks + taken_out d
        ≡ held user d db db.product_stocks + put_in d)
      × ((a : StockAdjustment) × (db'.stock_adjustments ≡ db.stock_adjustments ++ a ∷ [])
          × (a.tenant_id ≡ user.tenant_id)
          × (a.outlet_id ≡ d.outlet_id)
          × (a.product_id ≡ d.product_id)
          × (a.user_id ≡ user.sub)
          × (a.type ≡ d.adjustment_type)
          × (a.quantity ≡ d.quantity)
          × (m : StockMovement) × (db'.stock_movements ≡ db.stock_movements ++ m ∷ [])
          × IsMovement user d a.id m)
unfolding create_adjustment log_adjustment
create_adjustment_stock user d db db' s h =
    let (_, _, h1) = reads-bind (check_adjustment user d) _ db h in
    let (_, mid, changed, h2) = bind-ok (adjust_rows user d) _ db h1 in
    let (one, e) = adjust_rows-ok user d db mid changed in
    let (_, same) = lift-ok (read_stock user d _) _ h2 in
    let rows = ap (λ (x : Db). x.product_stocks) same ∙ ap (λ (x : Db). x.product_stocks) e in
    (
      ap (λ r. held user d db r + taken_out d) rows ∙ adjusted-held user d db one,
      (
        adjustment_row user d mid.next_id,
        ap (λ (x : Db). x.stock_adjustments) same
            ∙ ap (λ (x : Db). x.stock_adjustments ++ adjustment_row user d mid.next_id ∷ []) e,
        refl,
        refl,
        refl,
        refl,
        refl,
        refl,
        movement_row user d mid.next_id,
        ap (λ (x : Db). x.stock_movements) same
            ∙ ap (λ (x : Db). x.stock_movements ++ movement_row user d mid.next_id ∷ []) e,
        movement_row-IsMovement user d mid.next_id,
      ),
    )
