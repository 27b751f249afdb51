-- ===== src/Transactions/Core/Payment.antt =====
-- The payment that a checkout stores.
use kasirk_backend.Base.{
  ℕ, ◌+◌, ◌-◌, ◌≡◌, refl, sym, ap, subst, false, [], ◌∷◌, ◌++◌, Option, none, some, arith, find,
}
use kasirk_backend.Common.Errors.{ok}
use kasirk_backend.Database.Rows.{Db, Payment, PaymentMethod, cash, qris, edc, paid}
use kasirk_backend.Transactions.Dto.{Checkout, CheckoutMode, PaymentDto, get_or}
use kasirk_backend.Transactions.Tender.{resolve_tender}
use kasirk_backend.Transactions.Pricing.{underpaid}
use kasirk_backend.Transactions.Persist.{Actor, change, payment_row}
use kasirk_backend.Transactions.Persist.Effect.{payment_id}
use kasirk_backend.Transactions.Response.{Response, read_record}
use kasirk_backend.Transactions.Checks.{with_client_id}
use kasirk_backend.Transactions.Core.{checkout}
use kasirk_backend.Transactions.Core.Sale.{price_sale-IsPriced}
use kasirk_backend.Transactions.Core.WellFormed.{IsWellFormed, completed_row}
use kasirk_backend.Transactions.Core.Idempotent.{shown-sold}
use kasirk_backend.Transactions.Core.Outcome.{
  checkout-SaleOf, to_summary-figures, to_response-summary,
}

-- What is received and given back: for cash the tender and what it exceeds the total by, otherwise
-- nothing.
abbrev pub IsTendered : PaymentMethod → PaymentDto → ℕ → Option ℕ → Option ℕ → Type 0
IsTendered cash p total received back =
    (tender : ℕ) × (rest : ℕ) × (tender ≡ get_or p.amount_received (get_or p.amount 0))
    × (received ≡ some tender)
    × (back ≡ some rest)
    × (rest + total ≡ tender)
IsTendered _ p total received back = (received ≡ none) × (back ≡ none)

pub record IsPaid (actor : Actor) (dto : Checkout) (r : Response) (db : Db) (p : Payment)
    : Type 0 where
  pub tenant : p.tenant_id ≡ actor.tenant_id
  pub transaction : p.transaction_id ≡ r.transaction_id
  pub method : p.method ≡ dto.payment.method
  pub status : p.status ≡ paid
  pub amount : p.amount ≡ r.total
  pub time : p.paid_at ≡ db.clock
  pub tendered : IsTendered dto.payment.method dto.payment r.total p.amount_received p.change_amount

covered :
    (tender total : ℕ) → underpaid (some tender) total ≡ false → tender - total + total ≡ tender
covered tender total h = ground arith

change-IsTendered :
    (p : PaymentDto) (total : ℕ) (tender : Option ℕ)
    → tender ≡ resolve_tender p
    → underpaid tender total ≡ false
    → IsTendered p.method p total tender (change tender total)
unfolding resolve_tender
change-IsTendered p total tender h enough =
    subst (λ o. IsTendered p.method p total o (change o total)) (sym h)
      (go p.method (subst (λ o. underpaid o total ≡ false) h enough))
  where
    given : PaymentMethod → Option ℕ
    given m = elim m [ cash ↦ some (get_or p.amount_received (get_or p.amount 0)) | _ ↦ none ]

    go :
        (m : PaymentMethod)
        → underpaid (given m) total ≡ false
        → IsTendered m p total (given m) (change (given m) total)
    go cash k =
        let tender = get_or p.amount_received (get_or p.amount 0) in
        (tender, tender - total, refl, refl, refl, covered tender total k)
    go qris k = (refl, refl)
    go edc k = (refl, refl)

-- On a well-formed database, a checkout with a new client transaction id that succeeds writes
-- exactly one payment, of the transaction and of the requested method, paid at the clock with the
-- total that the response shows; for cash it records the tender (amount_received, else amount) and
-- as change what that exceeds the total by, for QRIS and EDC neither.
pub checkout_payment :
    (actor : Actor) (dto : Checkout) (mode : CheckoutMode) (db db' : Db) (r : Response)
    → IsWellFormed db
    → find (with_client_id actor dto.client_transaction_id) db.transactions ≡ none
    → checkout actor dto mode db ≡ ok (r, db')
    → (p : Payment) × (db'.payments ≡ db.payments ++ p ∷ []) × IsPaid actor dto r db p
unfolding read_record
checkout_payment actor dto mode db db' r w new h =
    let (party, _, s) = checkout-SaleOf actor dto mode db db' r new h in
    let items = s.sale.items in
    let t = s.sale.totals in
    let priced =
      price_sale-IsPriced party.tenant items dto.discount dto.payment t s.prepared.priced in
    let figures =
      to_summary-figures (completed_row actor dto t db) r.summary
        (to_response-summary _ r (shown-sold actor party dto db r db' w s)) in
    (
      payment_row actor.tenant_id db.next_id dto.payment t (payment_id db items) db.clock,
      ap (λ (d : Db). d.payments) s.stored,
      record {
        tenant = refl;
        transaction = sym figures.0;
        method = refl;
        status = refl;
        amount = sym figures.5;
        time = refl;
        tendered =
            subst
              (λ n. IsTendered dto.payment.method dto.payment n t.tender (change t.tender t.total))
              (sym figures.5)
              (change-IsTendered dto.payment t.total t.tender priced.tender_eq
                priced.tender_covers);
      },
    )
