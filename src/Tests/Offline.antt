-- ===== src/Tests/Offline.antt =====
-- The sample shop's purchase, sent by an offline client after an old row for an unknown product.
use kasirk_backend.Base.{ℕ, ◌≡◌, refl, true, [], ◌∷◌, List, none}
use kasirk_backend.Base.Text.{Uuid, trim}
use kasirk_backend.Common.Errors.{ok}
use kasirk_backend.Database.Rows.{Db}
use kasirk_backend.Database.Retry.{World}
use kasirk_backend.Transactions.Dto.{checkout_dto, valid_checkout}
use kasirk_backend.Transactions.Create.{actor_context, LegacySyncTransactionDto, valid_legacy}
use kasirk_backend.Sync.{
  SyncRow, v1_row, legacy_row, SyncResponse, check_access, valid_dto, sync_transactions,
}
use kasirk_backend.Sync.Answers.{IsSynced, sync_transactions-IsSynced}
use kasirk_backend.Tests.Sample.{shop, purchase, seller_actor}
use kasirk_backend.Tests.Requests.{flaky, seller_token}

abbrev at_value : ℕ → Uuid
at_value n = record { value = n; casing = 0 }

abbrev old_sale : LegacySyncTransactionDto
old_sale = record {
  client_transaction_id = at_value 51;
  outlet_id = at_value 3;
  customer_id = none;
  items = record { product_id = at_value 999; quantity = 1 } ∷ [];
  amount = 1000;
}

abbrev offline_rows : List SyncRow
offline_rows = legacy_row old_sale ∷ v1_row (checkout_dto purchase) ∷ []

abbrev worlds : ℕ → World
worlds i = flaky

-- Another client deletes its held orders just before the access check.
abbrev gate : World
gate = record { others = λ i db. record db { held_orders = [] }; faults = λ i. none }

offline_valid : valid_dto offline_rows ≡ true
unfolding valid_dto valid_legacy valid_checkout trim
offline_valid = refl

offline_allowed : check_access seller_actor offline_rows (gate.others 0 shop) ≡ ok tt
unfolding check_access
offline_allowed = refl

seller_named : actor_context seller_token ≡ ok seller_actor
unfolding actor_context
seller_named = refl

sync_transactions-IsSynced_example :
    (r : SyncResponse) × (db' : Db) × (sync_transactions gate worlds seller_token offline_rows shop
      ≡ (ok r, db'))
    × IsSynced worlds seller_token offline_rows (gate.others 0 shop) db' r
sync_transactions-IsSynced_example =
    sync_transactions-IsSynced worlds seller_token gate offline_rows shop seller_actor offline_valid
      seller_named refl offline_allowed
