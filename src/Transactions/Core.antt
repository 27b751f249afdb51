-- ===== src/Transactions/Core.antt =====
-- `executeTransactionCore` and `checkout` of transactions.service.ts: the authoritative sale.
pub mod Sale
pub mod WellFormed
pub mod Keys
pub mod SameRequest
pub mod Idempotent
pub mod Written
pub mod Outcome
pub mod Payment
use kasirk_backend.Base.{ℕ, Option, ◌≡◌, refl, ◌&&◌, [], none, some, ◌==◌, find}
use kasirk_backend.Common.Errors.{Result}
use kasirk_backend.Database.Rows.{Db, Transaction}
use kasirk_backend.Database.Client.{Tx, ◌>>=◌, ◌>>◌, gets, lift, reads}
use kasirk_backend.Transactions.Dto.{CheckoutDto, Checkout, CheckoutMode, normalize_checkout_dto}
use kasirk_backend.Transactions.Tender.{assert_checkout_input, assert_payment_shape}
use kasirk_backend.Transactions.Persist.{Actor, persist_sale}
use kasirk_backend.Transactions.Response.{Response, read_record, to_response}
use kasirk_backend.Transactions.Replay.{assert_same_request}
use kasirk_backend.Transactions.Checks.{
  Party, authorize, with_client_id, prepare_sale, read_response,
}

-- A sale that is not there yet.
unfoldable pub new_sale : Actor → Party → Checkout → CheckoutMode → Tx Response
new_sale actor party dto mode = do
  sale ← reads (prepare_sale actor party dto mode)
  id ← persist_sale actor dto sale.items sale.totals
  reads (read_response (λ t. t.id == id && t.tenant_id == actor.tenant_id))

-- The answer to a request, given the transaction that its client transaction id already names.
unfoldable pub answer : Actor → Party → Checkout → CheckoutMode → Option Transaction → Tx Response
unfolding new_sale
answer actor party dto mode (some t) = do
  reads (λ db. assert_same_request (read_record db t) actor dto)
  reads (λ db. to_response [] (read_record db t))
answer actor party dto mode none = new_sale actor party dto mode

unfoldable pub checkout : Actor → Checkout → CheckoutMode → Tx Response
unfolding answer
checkout actor dto mode = do
  party ← reads (authorize actor)
  existing ← gets (λ db. find (with_client_id actor dto.client_transaction_id) db.transactions)
  answer actor party dto mode existing

-- `executeTransactionCore`: the input contract, the payment's shape, then the sale.
unfoldable pub execute_transaction_core : Actor → CheckoutDto → CheckoutMode → Tx Response
unfolding checkout
execute_transaction_core actor dto mode = do
  validated ← lift (assert_checkout_input dto mode)
  let normalized = normalize_checkout_dto validated mode
  lift (assert_payment_shape normalized.payment)
  checkout actor normalized mode
