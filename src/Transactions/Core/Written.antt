-- ===== src/Transactions/Core/Written.antt =====
-- The rows that a sale writes for its lines and for the stock that it takes.
use kasirk_backend.Base.{ℕ, suc, ◌*◌, ◌≡◌, refl, List, [], ◌∷◌, map, none}
use kasirk_backend.Base.Int.{neg}
use kasirk_backend.Database.Rows.{StockMovement, TransactionItem, sale}
use kasirk_backend.Transactions.Catalog.{ValidatedItem}
use kasirk_backend.Transactions.Persist.{Actor, sale_movement}
use kasirk_backend.Transactions.Persist.Effect.{item_rows}

-- Each line of the transaction `id` has its row, with its price and its subtotal.
abbrev pub AreStored : ℕ → ℕ → List ValidatedItem → List TransactionItem → Type 0
AreStored tenant id [] [] = Unit
AreStored tenant id (vi ∷ items) (row ∷ rows) =
    (row.tenant_id ≡ tenant)
    × (row.transaction_id ≡ id)
    × (row.product_id ≡ vi.product.id)
    × (row.quantity ≡ vi.quantity)
    × (row.unit_price ≡ vi.effective_price)
    × (row.subtotal ≡ vi.effective_price * vi.quantity)
    × AreStored tenant id items rows
AreStored tenant id _ _ = ⊥

pub item_rows-AreStored :
    (tenant id n : ℕ) (items : List ValidatedItem)
    → AreStored tenant id items (item_rows tenant id n items)
item_rows-AreStored tenant id n [] = tt
item_rows-AreStored tenant id n (vi ∷ items) =
    (refl, refl, refl, refl, refl, refl, item_rows-AreStored tenant id (suc n) items)

-- Each product of the map has its movement out of the outlet, for the transaction `id`.
abbrev pub AreTaken : Actor → ℕ → ℕ → List (ℕ × ℕ) → List StockMovement → Type 0
AreTaken user outlet id [] [] = Unit
AreTaken user outlet id ((product, quantity) ∷ m) (move ∷ moves) =
    (move.tenant_id ≡ user.tenant_id)
    × (move.outlet_id ≡ outlet)
    × (move.product_id ≡ product)
    × (move.user_id ≡ user.sub)
    × (move.type ≡ sale)
    × (move.quantity ≡ neg quantity)
    × (move.reference_id ≡ id)
    × (move.reason ≡ none)
    × AreTaken user outlet id m moves
AreTaken user outlet id _ _ = ⊥

pub sale_movements-AreTaken :
    (user : Actor) (outlet id : ℕ) (m : List (ℕ × ℕ))
    → AreTaken user outlet id m (map (sale_movement user outlet id) m)
sale_movements-AreTaken user outlet id [] = tt
sale_movements-AreTaken user outlet id ((product, quantity) ∷ m) =
    (refl, refl, refl, refl, refl, refl, refl, refl, sale_movements-AreTaken user outlet id m)
