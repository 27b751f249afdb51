-- ===== src/HeldOrders/Convert.antt =====
-- `checkout` and `convertHeldOrder` of held-orders.service.ts: an order becomes a sale.
pub mod Links
use kasirk_backend.Base.{
  ℕ, ◌+◌, Bool, true, false, ◌&&◌, not, List, [], ◌∷◌, map, none, some, if◌then◌else◌, ◌==◌, opt_eq,
  find,
}
use kasirk_backend.Base.Text.{lower_case}
use kasirk_backend.Common.Errors
use kasirk_backend.Common.Errors.{
  Result, ok, err, Failure, http, prisma, other_error, p2003, p2025, p2034, bad_request, conflict,
  forbidden, service_unavailable, internal_error, invalid_held_order_input,
  held_order_converted_no_link, held_order_link_mismatch, held_order_not_open,
  held_order_version_conflict, held_order_resource_conflict, held_order_conversion_failed,
  outlet_access_denied, invalid_cashier_session, session_outlet_mismatch, session_user_mismatch,
  transaction_retry_required, transaction_resource_conflict, idempotency_conflict,
}
use kasirk_backend.Common.Roles.{is_cashier}
use kasirk_backend.Database.Rows.{
  Db, Transaction, HeldOrder, HeldOrderItemModifier, CashierSession, converted_order, is_open,
}
use kasirk_backend.Database.Client.{Tx, ◌>>=◌, ◌>>◌, pure, gets, lift, reads}
use kasirk_backend.Database.Retry.{World, Handled, again, give_up, run_attempts}
use kasirk_backend.Transactions.Dto.{CheckoutDto, ItemDto, v1, lower_text}
use kasirk_backend.Transactions.Persist.{Actor}
use kasirk_backend.Transactions.Response.{Response, TransactionRecord, ItemRecord, read_record}
use kasirk_backend.Transactions.Replay.{option_ids}
use kasirk_backend.Transactions.Core.{execute_transaction_core}
use kasirk_backend.Transactions.Checks.{with_client_id}
use kasirk_backend.HeldOrders.Dto.{CheckoutHeldOrderDto, valid_held_checkout}
use kasirk_backend.HeldOrders.Access.{HeldActor}
use kasirk_backend.HeldOrders.Read.{
  HeldOrderRecord, HeldItemRecord, read_held, find_in_scope, assert_open_version,
}
use kasirk_backend.HeldOrders.Write.{guarded_update}

pub record Conversion : Type 0 where
  pub transaction : Response
  pub replayed : Bool

abbrev pub seller : HeldActor → Actor
seller a = record { tenant_id = a.tenant_id; sub = a.sub }

held_option_ids : List HeldOrderItemModifier → List ℕ
held_option_ids [] = []
held_option_ids (m ∷ ms) = elim m.modifier_option_id [
  | some i ↦ i ∷ held_option_ids ms
  | none ↦ held_option_ids ms
]

-- The lines of an order as a checkout request: no prices, which the sale reads anew.
unfoldable pub held_item_dto : HeldItemRecord → ItemDto
unfolding held_option_ids
held_item_dto r = record {
  product_id = lower_text r.item.product_id;
  quantity = r.item.quantity;
  modifier_option_ids = some (map lower_text (held_option_ids r.modifiers));
  note = r.item.note_snapshot;
}

unfoldable pub held_checkout_dto : HeldOrderRecord → CheckoutHeldOrderDto → CheckoutDto
unfolding held_item_dto
held_checkout_dto h dto = record {
  client_transaction_id = lower_text (lower_case dto.client_transaction_id);
  outlet_id = lower_text h.order.outlet_id;
  cashier_session_id = some (lower_text h.order.origin_cashier_session_id);
  customer_id = none;
  items = map held_item_dto h.items;
  discount = some 0;
  payment = dto.payment;
}

sold_item_dto : ItemRecord → ItemDto
sold_item_dto r = record {
  product_id = lower_text r.item.product_id;
  quantity = r.item.quantity;
  modifier_option_ids = some (map lower_text (option_ids r.modifiers));
  note = r.item.note_snapshot;
}

-- The request rebuilt from the sale that an order was converted to.
unfoldable pub replay_dto : HeldOrder → TransactionRecord → CheckoutHeldOrderDto → CheckoutDto
unfolding sold_item_dto
replay_dto o existing dto = record {
  client_transaction_id = lower_text (lower_case dto.client_transaction_id);
  outlet_id = lower_text o.outlet_id;
  cashier_session_id = some (lower_text o.origin_cashier_session_id);
  customer_id = none;
  items = map sold_item_dto existing.items;
  discount = some existing.row.discount;
  payment = dto.payment;
}

-- The sale that a converted order is linked to, found by the idempotency key of the request.
unfoldable pub find_linked : HeldActor → HeldOrder → CheckoutHeldOrderDto → Db → Result Transaction
find_linked actor o dto db =
    Errors.◌>>=◌
      (Errors.or_raise
        (find (with_client_id (seller actor) (lower_case dto.client_transaction_id))
          db.transactions)
        (conflict held_order_converted_no_link))
      λ t.
        Errors.◌>>◌
          (Errors.raise_if (not (opt_eq (some t.id) o.converted_transaction_id))
            (conflict held_order_link_mismatch))
          (ok t)

-- A repeated conversion: the linked sale, by its idempotency key.
unfoldable pub replay_conversion : HeldActor → HeldOrder → CheckoutHeldOrderDto → Tx Conversion
unfolding replay_dto
replay_conversion actor o dto = do
  t ← reads (find_linked actor o dto)
  db ← gets (λ db. db)
  result ← execute_transaction_core (seller actor) (replay_dto o (read_record db t) dto) v1
  pure (record { transaction = result; replayed = true })

assigned_here : HeldActor → HeldOrder → Db → Bool
assigned_here actor o db =
    elim (find (λ u. u.id == actor.sub && u.tenant_id == actor.tenant_id) db.users) [
      | none ↦ false
      | some u ↦ opt_eq u.outlet_id (some o.outlet_id)
    ]

-- `closed_at: null`
never_closed : CashierSession → Bool
never_closed s = elim s.closed_at [ none ↦ true | some _ ↦ false ]

-- The origin session is open, at the order's outlet, and the order's cashier's.
unfoldable pub check_origin : HeldActor → HeldOrder → Db → Result (Unit {0})
unfolding assigned_here never_closed
check_origin actor o db =
    Errors.◌>>◌
      (Errors.raise_if (is_cashier actor.role && not (assigned_here actor o db))
        (forbidden outlet_access_denied))
      (Errors.◌>>=◌
        (Errors.or_raise
          (find
            (λ s.
              s.id == o.origin_cashier_session_id
              && s.tenant_id == actor.tenant_id
              && is_open s.status
              && never_closed s)
            db.cashier_sessions)
          (forbidden invalid_cashier_session))
        λ session.
          Errors.◌>>◌
            (Errors.raise_if (not (session.outlet_id == o.outlet_id))
              (forbidden session_outlet_mismatch))
            (Errors.raise_if (not (session.user_id == o.cashier_user_id))
              (forbidden session_user_mismatch)))

abbrev pub claim_row : Db → HeldOrder → HeldOrder
claim_row db o = record o { version = o.version + 1 }

abbrev pub convert_row : ℕ → Db → HeldOrder → HeldOrder
convert_row transaction db o = record o {
  status = converted_order;
  converted_transaction_id = some transaction;
  converted_at = some db.clock;
}

-- The first conversion: claim the order, sell its lines, mark it converted.
unfoldable pub first_conversion : HeldActor → HeldOrder → CheckoutHeldOrderDto → Tx Conversion
unfolding held_checkout_dto
first_conversion actor o dto = do
  lift (assert_open_version o dto.expected_version)
  lines ← gets (λ db. read_held db o)
  reads (check_origin actor o)
  guarded_update actor.tenant_id o.id dto.expected_version (conflict held_order_version_conflict)
      claim_row
  result ← execute_transaction_core (seller actor) (held_checkout_dto lines dto) v1
  guarded_update actor.tenant_id o.id (dto.expected_version + 1)
      (conflict held_order_resource_conflict) (convert_row result.transaction_id)
  pure (record { transaction = result; replayed = false })

abbrev pub is_converted : HeldOrder → Bool
is_converted o = elim o.status [ converted_order ↦ true | _ ↦ false ]

-- `convertHeldOrder`
unfoldable pub convert_held_order : HeldActor → ℕ → CheckoutHeldOrderDto → Tx Conversion
unfolding replay_conversion first_conversion
convert_held_order actor id dto = do
  o ← reads (find_in_scope actor id)
  if is_converted o then replay_conversion actor o dto else first_conversion actor o dto

-- The `catch` clause of `checkout`.
unfoldable pub handle_checkout : Failure → Handled
handle_checkout (http e) = give_up (http e)
handle_checkout (prisma e) =
    if idempotency_conflict e
    then again (http (service_unavailable transaction_retry_required))
    else elim e [
      | p2034 ↦ again (http (service_unavailable transaction_retry_required))
      | p2003 ↦ give_up (http (conflict transaction_resource_conflict))
      | p2025 ↦ give_up (http (conflict transaction_resource_conflict))
      | _ ↦ give_up (http (internal_error held_order_conversion_failed))
    ]
handle_checkout (other_error _) = give_up (http (internal_error held_order_conversion_failed))

-- `checkout`, once its ids are known to be UUIDs.
unfoldable pub checkout_held :
    World → HeldActor → ℕ → CheckoutHeldOrderDto → Db → Result Conversion × Db
checkout_held w actor id dto db =
    if valid_held_checkout dto
    then run_attempts handle_checkout (http (service_unavailable transaction_retry_required)) w 3 0
        (convert_held_order actor id dto) db
    else (err (http (bad_request invalid_held_order_input)), db)
