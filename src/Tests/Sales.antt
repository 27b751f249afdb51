-- ===== src/Tests/Sales.antt =====
-- A checkout of the sample shop, run; and the theorems on sales at that run.
use kasirk_backend.Base.{ℕ, ◌≡◌, ◌+◌, ◌++◌, map, not, ◌==◌, select, refl, List, [], ◌∷◌}
use kasirk_backend.Common.Errors.{ok}
use kasirk_backend.Database.Rows.{Payment, StockMovement, TransactionItem, completed}
use kasirk_backend.Tests.Sample.{shop, seller_actor, purchase, shop-IsWellFormed}
use kasirk_backend.Tests.Receipt.{receipt, shop_after}
use kasirk_backend.Transactions.Dto.{v1}
use kasirk_backend.Transactions.Catalog.{ValidatedItem, read_catalog, validate_lines}
use kasirk_backend.Transactions.Catalog.Bought.{AreBought, asked}
use kasirk_backend.Transactions.Checks.{Party, authorize, prepare_sale, read_response}
use kasirk_backend.Transactions.Pricing.{Totals, price_sale}
use kasirk_backend.Transactions.Tender.{resolve_tender}
use kasirk_backend.Common.Tax.{calculate_tax}
use kasirk_backend.Transactions.Persist.{stock_by_product, persist_sale}
use kasirk_backend.Transactions.Persist.StockEffect.{on_hand, quantity_of}
use kasirk_backend.Transactions.Replay.{requested_key}
use kasirk_backend.Transactions.Core.{checkout}
use kasirk_backend.Transactions.Core.WellFormed.{completed_row}
use kasirk_backend.Transactions.Core.Sale.{IsPriced}
use kasirk_backend.Transactions.Core.Payment.{IsPaid, checkout_payment}
use kasirk_backend.Transactions.Core.Written.{AreStored, AreTaken}
use kasirk_backend.Transactions.Core.Keys.{item_key}
use kasirk_backend.Transactions.Core.Idempotent.{checkout_replay}
use kasirk_backend.Transactions.Core.Outcome.{checkout_stock, checkout_figures}
use kasirk_backend.Transactions.Response.{to_response, read_record}

purchase_run : checkout seller_actor purchase v1 shop ≡ ok (receipt, shop_after)
unfolding checkout authorize prepare_sale read_catalog validate_lines price_sale calculate_tax
    resolve_tender persist_sale read_response to_response read_record
purchase_run = refl

checkout_replay_example : checkout seller_actor purchase v1 shop_after ≡ ok (receipt, shop_after)
checkout_replay_example =
    checkout_replay seller_actor purchase v1 shop shop_after receipt shop-IsWellFormed purchase_run

checkout_stock_example :
    (items : List ValidatedItem) × (map item_key items ≡ map requested_key purchase.lines)
    × AreBought 1 shop purchase.lines items
    × ((product : ℕ)
        → on_hand 1 3 shop.outlets shop.products product shop.product_stocks
          ≡ on_hand 1 3 shop.outlets shop.products product shop_after.product_stocks
            + asked 1 shop product purchase.lines)
    × (select (λ s. not (s.outlet_id == 3)) shop_after.product_stocks
        ≡ select (λ s. not (s.outlet_id == 3)) shop.product_stocks)
    × ((product : ℕ)
        → quantity_of product (stock_by_product items) ≡ asked 1 shop product purchase.lines)
    × (moves : List StockMovement) × AreTaken seller_actor 3 100 (stock_by_product items) moves
    × (shop_after.stock_movements ≡ shop.stock_movements ++ moves)
checkout_stock_example =
    checkout_stock seller_actor purchase v1 shop shop_after receipt refl purchase_run

checkout_figures_example :
    (party : Party) × (items : List ValidatedItem) × (t : Totals) × (rows : List TransactionItem)
    × (authorize seller_actor shop ≡ ok party)
    × (map item_key items ≡ map requested_key purchase.lines)
    × AreBought 1 shop purchase.lines items
    × AreStored 1 100 items rows
    × (shop_after.transaction_items ≡ [] ++ rows)
    × IsPriced party.tenant items 0 purchase.payment t
    × (shop_after.transactions ≡ [] ++ completed_row seller_actor purchase t shop ∷ [])
    × (receipt.transaction_id ≡ 100)
    × (receipt.status ≡ completed)
    × (receipt.subtotal ≡ t.subtotal)
    × (receipt.discount ≡ t.discount)
    × (receipt.tax ≡ t.tax)
    × (receipt.total ≡ t.total)
checkout_figures_example =
    checkout_figures seller_actor purchase v1 shop shop_after receipt shop-IsWellFormed refl
      purchase_run

checkout_payment_example :
    (p : Payment) × (shop_after.payments ≡ [] ++ p ∷ [])
    × IsPaid seller_actor purchase receipt shop p
checkout_payment_example =
    checkout_payment seller_actor purchase v1 shop shop_after receipt shop-IsWellFormed refl
      purchase_run
