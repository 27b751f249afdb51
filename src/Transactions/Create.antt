-- ===== src/Transactions/Create.antt =====
-- `create`, `createLegacySync` and `createInternal` of transactions.service.ts: the checkout as a
-- client calls it, with its retries. Also the request of an offline client
-- (sync/dto/legacy-sync-transaction.dto.ts).
pub mod Outcome
pub mod Errors
use kasirk_backend.Base.{
  ℕ, ◌≡◌, refl, Bool, true, false, ◌&&◌, ◌||◌, List, [], ◌∷◌, map, Option, none, some, arith,
  if◌then◌else◌, ◌==◌, leb, all,
}
use kasirk_backend.Base.Text.{Uuid, IdText, uuid, malformed, lower_case}
use kasirk_backend.Common.Errors.{
  Result, ok, err, Failure, http, prisma, other_error, PrismaError, p2002, p2003, p2025, p2034,
  other_code, ◌>>◌, ◌>>=◌, bad_request, unauthorized, conflict, service_unavailable, internal_error,
  invalid_input, invalid_user_context, transaction_retry_required, transaction_resource_conflict,
  unable_to_create, duplicate_request,
}
use kasirk_backend.Database.Rows.{Db, cash}
use kasirk_backend.Database.Client.{Tx}
use kasirk_backend.Database.Retry.{World, Handled, again, give_up, run_attempts}
use kasirk_backend.Transactions.Dto.{
  CheckoutDto, Checkout, ItemDto, PaymentDto, CheckoutMode, v1, legacy_sync, normalize_checkout_dto,
  checkout_dto, max_int, max_safe_integer, non_empty,
}
use kasirk_backend.Transactions.Tender.{assert_checkout_input, assert_payment_shape}
use kasirk_backend.Transactions.Persist.{Actor}
use kasirk_backend.Transactions.Response.{Response}
use kasirk_backend.Transactions.Core.{execute_transaction_core}

-- The signed-in user, as the access token names it.
pub record JwtPayload : Type 0 where
  pub sub : IdText
  pub tenant_id : IdText

-- `isUUID` on both ids, and their lower-case forms.
unfoldable pub actor_context : JwtPayload → Result Actor
actor_context user = elim user.sub [
  | malformed _ ↦ err (http (unauthorized invalid_user_context))
  | uuid s ↦ elim user.tenant_id [
    | malformed _ ↦ err (http (unauthorized invalid_user_context))
    | uuid t ↦ ok (record { tenant_id = lower_case t; sub = lower_case s })
  ]
]

-- The `catch` clause of `createInternal`.
unfoldable pub handle_create : Failure → Handled
handle_create (http e) = give_up (http e)
handle_create (prisma e) =
    if duplicate_request e
    then again (http (service_unavailable transaction_retry_required))
    else elim e [
      | p2034 ↦ again (http (service_unavailable transaction_retry_required))
      | p2003 ↦ give_up (http (conflict transaction_resource_conflict))
      | p2025 ↦ give_up (http (conflict transaction_resource_conflict))
      | _ ↦ give_up (http (internal_error unable_to_create))
    ]
handle_create (other_error _) = give_up (http (internal_error unable_to_create))

-- The requests that reach the database: valid, and normalized for the core.
unfoldable pub prepare : JwtPayload → CheckoutDto → CheckoutMode → Result (Actor × Checkout)
unfolding actor_context
prepare user input mode = do
  actor ← actor_context user
  dto ← assert_checkout_input input mode
  assert_payment_shape dto.payment
  ok (actor, normalize_checkout_dto dto mode)

-- What follows the preparation of a request.
abbrev pub run_prepared :
    World → CheckoutMode → Result (Actor × Checkout) → Db → Result Response × Db
run_prepared w mode (err e) db = (err e, db)
run_prepared w mode (ok (actor, dto)) db =
    run_attempts handle_create (http (service_unavailable unable_to_create)) w 3 0
      (execute_transaction_core actor (checkout_dto dto) mode) db

unfoldable pub create_internal :
    World → JwtPayload → CheckoutDto → CheckoutMode → Db → Result Response × Db
unfolding prepare
create_internal w user input mode = run_prepared w mode (prepare user input mode)

unfoldable pub create : World → JwtPayload → CheckoutDto → Db → Result Response × Db
unfolding create_internal
create w user input = create_internal w user input v1

pub record LegacyItem : Type 0 where
  pub product_id : Uuid
  pub quantity : ℕ

pub record LegacySyncTransactionDto : Type 0 where
  pub client_transaction_id : Uuid
  pub outlet_id : Uuid
  pub customer_id : Option Uuid
  pub items : List LegacyItem
  pub amount : ℕ

valid_legacy_item : LegacyItem → Bool
valid_legacy_item i = leb 1 i.quantity && leb i.quantity max_int

unfoldable pub valid_legacy : LegacySyncTransactionDto → Bool
unfolding valid_legacy_item
valid_legacy d = non_empty d.items && all valid_legacy_item d.items && leb d.amount max_safe_integer

abbrev legacy_item : LegacyItem → ItemDto
legacy_item i = record {
  product_id = i.product_id;
  quantity = i.quantity;
  modifier_option_ids = none;
  note = none;
}

-- `{ ...dto, discount: 0, cashier_session_id: null }`
abbrev pub legacy_checkout : LegacySyncTransactionDto → CheckoutDto
legacy_checkout d = record {
  client_transaction_id = d.client_transaction_id;
  outlet_id = d.outlet_id;
  cashier_session_id = none;
  customer_id = d.customer_id;
  items = map legacy_item d.items;
  discount = some 0;
  payment = record {
    method = cash;
    amount = some d.amount;
    amount_received = none;
    has_change_amount = false;
  };
}

unfoldable pub create_legacy_sync :
    World → JwtPayload → LegacySyncTransactionDto → Db → Result Response × Db
unfolding valid_legacy
create_legacy_sync w user d db =
    if valid_legacy d
    then create_internal w user (legacy_checkout d) legacy_sync db
    else (err (http (bad_request invalid_input)), db)
