-- ===== src/Transactions/Replay.antt =====
-- `assertSameRequest` and `samePayment` of transactions.service.ts: does a request repeat the one
-- that made a transaction? Lines, and the options of a line, are compared in any order.
use kasirk_backend.Base.{
  ℕ, Bool, false, ◌&&◌, not, List, [], ◌∷◌, ◌++◌, map, Option, none, some, ◌==◌, opt_eq, leb,
  length,
}
use kasirk_backend.Base.Text.{Text}
use kasirk_backend.Base.Sort.{sort, list_le, lists_eq}
use kasirk_backend.Common.Errors.{Result, conflict, raise_if, nullish, idempotency_payload_mismatch}
use kasirk_backend.Database.Rows.{Payment, cash, method_eq, TransactionItemModifier}
use kasirk_backend.Transactions.Dto.{Checkout, Line, PaymentDto, is_present}
use kasirk_backend.Transactions.Tender.{resolve_tender}
use kasirk_backend.Transactions.Persist.{Actor}
use kasirk_backend.Transactions.Response.{TransactionRecord, ItemRecord}

-- The ids that are not null.
unfoldable pub option_ids : List TransactionItemModifier → List ℕ
option_ids [] = []
option_ids (m ∷ ms) = elim m.modifier_option_id [
  | some i ↦ i ∷ option_ids ms
  | none ↦ option_ids ms
]

-- A line as `JSON.stringify` spells it: product, quantity, note (0, or 1 and its length and code
-- points) and sorted options. Like the JSON text, it determines each of them.
unfoldable pub line_key : ℕ → ℕ → Option Text → List ℕ → List ℕ
line_key product quantity none ids = product ∷ quantity ∷ 0 ∷ sort leb ids
line_key product quantity (some s) ids = product ∷ quantity ∷ 1 ∷ length s ∷ s ++ sort leb ids

unfoldable pub persisted_key : ItemRecord → List ℕ
unfolding line_key option_ids
persisted_key r =
    line_key r.item.product_id r.item.quantity r.item.note_snapshot (option_ids r.modifiers)

unfoldable pub requested_key : Line → List ℕ
unfolding line_key
requested_key l = line_key l.product_id l.quantity l.note l.modifier_option_ids

unfoldable pub same_lines : List ItemRecord → List Line → Bool
unfolding persisted_key requested_key
same_lines items lines =
    lists_eq (sort list_le (map persisted_key items)) (sort list_le (map requested_key lines))

unfoldable pub same_payment : List Payment → PaymentDto → Bool
same_payment (payment ∷ []) dto = method_eq payment.method dto.method && elim dto.method [
  | cash ↦ opt_eq (nullish payment.amount_received (some payment.amount)) (resolve_tender dto)
  | _ ↦ not (is_present payment.amount_received) && not (is_present payment.change_amount)
]
same_payment _ dto = false

unfoldable pub same_request : TransactionRecord → Actor → Checkout → Bool
unfolding same_lines same_payment
same_request existing user dto =
    existing.row.user_id == user.sub
    && existing.row.outlet_id == dto.outlet_id
    && opt_eq existing.row.cashier_session_id dto.cashier_session_id
    && opt_eq existing.row.customer_id dto.customer_id
    && existing.row.discount == dto.discount
    && same_payment existing.payments dto.payment
    && same_lines existing.items dto.lines

unfoldable pub assert_same_request : TransactionRecord → Actor → Checkout → Result (Unit {0})
unfolding same_request
assert_same_request existing user dto =
    raise_if (not (same_request existing user dto)) (conflict idempotency_payload_mismatch)
