-- ===== src/Tests/Requests.antt =====
-- The purchase of the sample shop as a whole request, with a first attempt that the database fails.
use kasirk_backend.Base.{◌≡◌, ◌==◌, ◌⊎◌, refl, true, none, some, if◌then◌else◌}
use kasirk_backend.Base.Text.{uuid}
use kasirk_backend.Common.Errors.{ok, prisma, p2034}
use kasirk_backend.Common.Tax.{calculate_tax}
use kasirk_backend.Database.Retry.{World, run_attempts}
use kasirk_backend.Transactions.Dto.{v1, valid_checkout, checkout_dto}
use kasirk_backend.Transactions.Tender.{assert_payment_shape, assert_checkout_input}
use kasirk_backend.Transactions.Catalog.{read_catalog}
use kasirk_backend.Transactions.Core.{execute_transaction_core}
use kasirk_backend.Transactions.Core.Idempotent.{execute_transaction_core-replay}
use kasirk_backend.Transactions.Create.{JwtPayload, create_internal}
use kasirk_backend.Transactions.Create.Outcome.{IsRefused, IsRun, create_internal-outcome}
use kasirk_backend.Transactions.Create.Errors.{only_http, create_internal-only_http}
use kasirk_backend.Tests.Sample.{shop, seller_actor, purchase, shop-IsWellFormed}
use kasirk_backend.Tests.Receipt.{receipt, shop_after}
use kasirk_backend.Base.Text.{trim}
use kasirk_backend.Common.Errors.{duplicate_request}
use kasirk_backend.Database.Retry.{run_transaction}
use kasirk_backend.Transactions.Dto.{normalize_checkout_dto}
use kasirk_backend.Transactions.Catalog.{validate_lines}
use kasirk_backend.Transactions.Checks.{authorize, prepare_sale, read_response}
use kasirk_backend.Transactions.Pricing.{price_sale}
use kasirk_backend.Transactions.Tender.{resolve_tender}
use kasirk_backend.Transactions.Persist.{persist_sale}
use kasirk_backend.Transactions.Response.{to_response, read_record}
use kasirk_backend.Transactions.Create.{handle_create}

purchase_core :
    execute_transaction_core seller_actor (checkout_dto purchase) v1 shop ≡ ok (receipt, shop_after)
unfolding valid_checkout trim normalize_checkout_dto authorize prepare_sale read_catalog
    validate_lines price_sale calculate_tax resolve_tender persist_sale read_response to_response
    read_record assert_checkout_input execute_transaction_core
purchase_core = refl

execute_transaction_core-replay_example :
    execute_transaction_core seller_actor (checkout_dto purchase) v1 shop_after
    ≡ ok (receipt, shop_after)
execute_transaction_core-replay_example =
    execute_transaction_core-replay seller_actor (checkout_dto purchase) v1 shop shop_after receipt
      shop-IsWellFormed purchase_core

-- The database fails the first attempt, and nobody else writes.
abbrev pub flaky : World
flaky = record { others = λ i db. db; faults = λ i. if i == 0 then some (prisma p2034) else none }

abbrev pub seller_token : JwtPayload
seller_token = record {
  sub = uuid (record { value = 2; casing = 0 });
  tenant_id = uuid (record { value = 1; casing = 0 });
}

purchase_created :
    create_internal flaky seller_token (checkout_dto purchase) v1 shop ≡ (ok receipt, shop_after)
unfolding valid_checkout trim normalize_checkout_dto authorize prepare_sale read_catalog
    validate_lines price_sale calculate_tax resolve_tender persist_sale read_response to_response
    read_record assert_checkout_input execute_transaction_core create_internal run_attempts
    run_transaction handle_create duplicate_request assert_payment_shape
purchase_created = refl

create_internal-outcome_example :
    IsRefused seller_token (checkout_dto purchase) v1 (ok receipt) shop shop_after
    ⊎ IsRun flaky seller_token (checkout_dto purchase) v1 (ok receipt) shop shop_after
create_internal-outcome_example =
    create_internal-outcome flaky seller_token (checkout_dto purchase) v1 shop (ok receipt)
      shop_after purchase_created

create_internal-only_http_example :
    only_http (create_internal flaky seller_token (checkout_dto purchase) v1 shop).0 ≡ true
create_internal-only_http_example =
    create_internal-only_http flaky seller_token (checkout_dto purchase) v1 shop
