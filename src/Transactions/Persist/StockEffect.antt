-- ===== src/Transactions/Persist/StockEffect.antt =====
-- The stock part of `checkout`: what the rows of a product hold before and after.
use kasirk_backend.Base.{
  ℕ, ◌+◌, ◌≡◌, refl, ◌∙◌, false, ◌&&◌, not, List, [], ◌∷◌, arith, if◌then◌else◌, ◌==◌, count_where,
  select, update, sum_by, inl, inr, Bool-cases, ==_eq,
}
use kasirk_backend.Database.Rows.{ProductStock, Outlet, Product}
use kasirk_backend.Transactions.Catalog.{ValidatedItem}
use kasirk_backend.Transactions.Persist.{add_quantity, collect_stock, stock_by_product, stock_match}
use kasirk_backend.Transactions.Persist.Effect.{takes, take_from, taken, IsCovered}

-- The quantity that a map of quantities holds for a product.
abbrev pub quantity_of : ℕ → List (ℕ × ℕ) → ℕ
quantity_of product [] = 0
quantity_of product ((p, q) ∷ m) = (if p == product then q else 0) + quantity_of product m

-- The quantity of a product over the lines whose product is tracked.
abbrev pub tracked_quantity : ℕ → List ValidatedItem → ℕ
tracked_quantity product =
    sum_by (λ vi. if vi.product.track_stock && vi.product.id == product then vi.quantity else 0)

add_quantity-quantity_of :
    (product p q : ℕ) (m : List (ℕ × ℕ))
    → quantity_of product (add_quantity p q m)
      ≡ quantity_of product m + (if p == product then q else 0)
unfolding add_quantity
add_quantity-quantity_of product p q [] = ground arith
add_quantity-quantity_of product p q ((p', q') ∷ m) =
    ground (arith, add_quantity-quantity_of product p q m)

collect_stock-quantity_of :
    (product : ℕ) (m : List (ℕ × ℕ)) (items : List ValidatedItem)
    → quantity_of product (collect_stock m items)
      ≡ quantity_of product m + tracked_quantity product items
unfolding collect_stock
collect_stock-quantity_of product m [] = omega arith
collect_stock-quantity_of product m (vi ∷ items) = ground (
  arith,
  collect_stock-quantity_of product m items,
  collect_stock-quantity_of product (add_quantity vi.product.id vi.quantity m) items,
  add_quantity-quantity_of product vi.product.id vi.quantity m,
)

-- `stockByProduct` holds of each product what the tracked lines ask of it.
pub stock_by_product-quantity_of :
    (product : ℕ) (items : List ValidatedItem)
    → quantity_of product (stock_by_product items) ≡ tracked_quantity product items
unfolding stock_by_product
stock_by_product-quantity_of product items =
    collect_stock-quantity_of product [] items ∙ omega arith

module _ (tenant outlet : ℕ) (outlets : List Outlet) (products : List Product) where
  -- What the rows of a product at the outlet hold.
  abbrev pub on_hand : ℕ → List ProductStock → ℕ
  on_hand product =
      sum_by (λ s. if stock_match tenant outlet product outlets products s then s.stock else 0)

  drawn : ℕ → ℕ → List ProductStock → ℕ
  drawn product qty [] = 0
  drawn product qty (s ∷ rows) =
      (if takes tenant outlet outlets products product qty s then qty else 0)
      + drawn product qty rows

  drawn_none :
      (product qty : ℕ) (rows : List ProductStock)
      → count_where (takes tenant outlet outlets products product qty) rows ≡ 0
      → drawn product qty rows ≡ 0
  unfolding drawn
  drawn_none product qty [] h = refl
  drawn_none product qty (s ∷ rows) h = ground (arith, drawn_none product qty rows)

  drawn_one :
      (product qty : ℕ) (rows : List ProductStock)
      → count_where (takes tenant outlet outlets products product qty) rows ≡ 1
      → drawn product qty rows ≡ qty
  unfolding drawn
  drawn_one product qty [] h = ground arith
  drawn_one product qty (s ∷ rows) h =
      ground (arith, drawn_none product qty rows, drawn_one product qty rows)

  on_hand-drawn :
      (product qty : ℕ) (rows : List ProductStock)
      → on_hand product rows
        ≡ on_hand product
            (update (takes tenant outlet outlets products product qty) (take_from qty) rows)
          + drawn product qty rows
  unfolding drawn
  on_hand-drawn product qty [] = refl
  on_hand-drawn product qty (s ∷ rows) = ground (arith, on_hand-drawn product qty rows)

  on_hand-other :
      (product other qty : ℕ) (rows : List ProductStock)
      → (other == product) ≡ false
      → on_hand product
          (update (takes tenant outlet outlets products other qty) (take_from qty) rows)
        ≡ on_hand product rows
  on_hand-other product other qty [] h = refl
  on_hand-other product other qty (s ∷ rows) h =
      ground (arith, on_hand-other product other qty rows h)

  -- One product taken: its own holding falls by the quantity, that of another stays.
  on_hand-take :
      (product other qty : ℕ) (rows : List ProductStock)
      → count_where (takes tenant outlet outlets products other qty) rows ≡ 1
      → on_hand product rows
        ≡ on_hand product
            (update (takes tenant outlet outlets products other qty) (take_from qty) rows)
          + (if other == product then qty else 0)
  on_hand-take product other qty rows h = elim (Bool-cases (other == product)) [
    | inl same ↦
        let e = ==_eq other product same in
        ground (arith, on_hand-drawn product qty rows, drawn_one product qty rows)
    | inr differs ↦ ground (arith, on_hand-other product other qty rows differs)
  ]

  -- What the rows held is what they hold, and what was taken.
  pub on_hand-taken :
      (product : ℕ) (m : List (ℕ × ℕ)) (rows : List ProductStock)
      → IsCovered tenant outlet outlets products m rows
      → on_hand product rows
        ≡ on_hand product (taken tenant outlet outlets products m rows) + quantity_of product m
  on_hand-taken product [] rows c = omega arith
  on_hand-taken product ((other, qty) ∷ m) rows c = omega (
    arith,
    on_hand-take product other qty rows c.0,
    on_hand-taken product m
        (update (takes tenant outlet outlets products other qty) (take_from qty) rows) c.1,
  )

  -- Nothing is taken at another outlet.
  select-elsewhere-take :
      (other qty : ℕ) (rows : List ProductStock)
      → select
          (λ s. not (s.outlet_id == outlet))
          (update (takes tenant outlet outlets products other qty) (take_from qty) rows)
        ≡ select (λ s. not (s.outlet_id == outlet)) rows
  select-elsewhere-take other qty [] = refl
  select-elsewhere-take other qty (s ∷ rows) = ground (arith, select-elsewhere-take other qty rows)

  pub select-elsewhere-taken :
      (m : List (ℕ × ℕ)) (rows : List ProductStock)
      → select (λ s. not (s.outlet_id == outlet)) (taken tenant outlet outlets products m rows)
        ≡ select (λ s. not (s.outlet_id == outlet)) rows
  select-elsewhere-taken [] rows = refl
  select-elsewhere-taken ((other, qty) ∷ m) rows =
      select-elsewhere-taken m
        (update (takes tenant outlet outlets products other qty) (take_from qty) rows)
      ∙ select-elsewhere-take other qty rows
