-- ===== src/Transactions/Core/Idempotent.antt =====
-- On sending the request of a checkout again, and on what `checkout` keeps.
use kasirk_backend.Base.{
  ◌≡◌, sym, ap, ap₂, subst, ◌∙◌, true, ◌&&◌, not, [], Option, none, some, arith, ◌==◌, find,
  find_last, inl, inr, Option-cases,
}
use kasirk_backend.Common.Errors.{Result, ok, raise_if, conflict, idempotency_payload_mismatch}
use kasirk_backend.Database.Rows.{Db, Transaction}
use kasirk_backend.Database.Client.{lift, reads, reads-bind, lift-ok, bind-eq}
use kasirk_backend.Transactions.Dto.{Checkout, CheckoutDto, CheckoutMode, normalize_checkout_dto}
use kasirk_backend.Transactions.Tender.{assert_checkout_input, assert_payment_shape}
use kasirk_backend.Transactions.Persist.{Actor}
use kasirk_backend.Transactions.Persist.Effect.{sold}
use kasirk_backend.Transactions.Response.{Response, TransactionRecord, read_record, to_response}
use kasirk_backend.Transactions.Replay.{same_request, assert_same_request}
use kasirk_backend.Transactions.Checks.{Party, Prepared, authorize, with_client_id}
use kasirk_backend.Transactions.Core.{answer, checkout, execute_transaction_core}
use kasirk_backend.Transactions.Core.Sale.{SaleOf, new_sale-SaleOf}
use kasirk_backend.Transactions.Core.WellFormed.{
  IsWellFormed, completed_row, sold-transactions, sold-find,
}
use kasirk_backend.Transactions.Core.SameRequest.{same_request-sold}

reads-eq :
    {A : Type 0} (r : Db → Result A) (db : Db) {a : A} → r db ≡ ok a → reads r db ≡ ok (a, db)
reads-eq r db h = ap (λ q. lift q db) h

assert_same-ok :
    (x : TransactionRecord) (actor : Actor) (dto : Checkout)
    → same_request x actor dto ≡ true
    → assert_same_request x actor dto ≡ ok tt
unfolding assert_same_request
assert_same-ok x actor dto h = ap (λ b. raise_if (not b) (conflict idempotency_payload_mismatch)) h

-- A known client transaction id, with the request that made it.
checkout_known :
    (actor : Actor) (dto : Checkout) (mode : CheckoutMode) (db : Db) (party : Party)
    (t : Transaction) (r : Response)
    → authorize actor db ≡ ok party
    → find (with_client_id actor dto.client_transaction_id) db.transactions ≡ some t
    → same_request (read_record db t) actor dto ≡ true
    → to_response [] (read_record db t) ≡ ok r
    → checkout actor dto mode db ≡ ok (r, db)
unfolding checkout answer
checkout_known actor dto mode db party t r a f s e =
    bind-eq (reads (authorize actor)) _ db (reads-eq (authorize actor) db a)
    ∙ ap (λ (o : Option Transaction). answer actor party dto mode o db) f
    ∙ bind-eq (reads (λ d. assert_same_request (read_record d t) actor dto)) _ db (
        reads-eq (λ d. assert_same_request (read_record d t) actor dto) db
          (assert_same-ok _ actor dto s))
    ∙ reads-eq (λ d. to_response [] (read_record d t)) db e

some-inj : {A : Type 0} {a b : A} → ◌≡◌ {A = Option A} (some a) (some b) → a ≡ b
some-inj h = cc

-- The rows that decide who the actor is are not touched by a sale.
authorize-sold :
    (actor : Actor) (dto : Checkout) (sale : Prepared) (db : Db) (party : Party)
    → authorize actor db ≡ ok party
    → authorize actor (sold actor dto sale.items sale.totals db) ≡ ok party
unfolding authorize
authorize-sold actor dto sale db party h = h

with_client_id-last :
    (actor : Actor) (dto : Checkout) (sale : Prepared) (db : Db)
    → IsWellFormed db
    → find (with_client_id actor dto.client_transaction_id) db.transactions ≡ none
    → find
        (with_client_id actor dto.client_transaction_id)
        (sold actor dto sale.items sale.totals db).transactions
      ≡ some (completed_row actor dto sale.totals db)
with_client_id-last actor dto sale db w h =
    ap (find _) (sold-transactions actor dto sale.items sale.totals db w)
    ∙ find_last _ db.transactions _ h (ground arith)

-- The response of a sale is read from the row that was completed.
pub shown-sold :
    (actor : Actor) (party : Party) (dto : Checkout) (db : Db) (r : Response) (db' : Db)
    → IsWellFormed db
    → (s : SaleOf actor party dto db r db')
    → to_response [] (
        read_record
          (sold actor dto s.sale.items s.sale.totals db)
          (completed_row actor dto s.sale.totals db))
      ≡ ok r
shown-sold actor party dto db r db' w s =
    let same_row = some-inj (
      sym s.found
      ∙ ap
          (λ (d : Db).
            find (λ t. t.id == db.next_id && t.tenant_id == actor.tenant_id) d.transactions)
          s.stored
      ∙ sold-find actor dto s.sale.items s.sale.totals db w) in
    sym (ap₂ (λ d t. to_response [] (read_record d t)) s.stored same_row) ∙ s.shown

replay-of_sale :
    (actor : Actor) (party : Party) (dto : Checkout) (mode : CheckoutMode) (db : Db) (r : Response)
    (db' : Db)
    → IsWellFormed db
    → authorize actor db ≡ ok party
    → find (with_client_id actor dto.client_transaction_id) db.transactions ≡ none
    → SaleOf actor party dto db r db'
    → checkout actor dto mode db' ≡ ok (r, db')
replay-of_sale actor party dto mode db r db' w a f s =
    subst (λ d. checkout actor dto mode d ≡ ok (r, d)) (sym s.stored)
      (checkout_known actor dto mode (sold actor dto s.sale.items s.sale.totals db) party
        (completed_row actor dto s.sale.totals db) r (authorize-sold actor dto s.sale db party a)
        (with_client_id-last actor dto s.sale db w f)
        (same_request-sold actor dto party s.sale db w s.prepared)
        (shown-sold actor party dto db r db' w s))

-- An answer from a known transaction writes nothing.
pub answer-known :
    (actor : Actor) (party : Party) (dto : Checkout) (mode : CheckoutMode) (t : Transaction)
    (db db' : Db) (r : Response)
    → answer actor party dto mode (some t) db ≡ ok (r, db')
    → db' ≡ db
unfolding answer
answer-known actor party dto mode t db db' r h =
    let (_, _, h1) = reads-bind (λ d. assert_same_request (read_record d t) actor dto) _ db h in
    (lift-ok _ db h1).1

-- Sent again after it succeeded, the same request gets the same response and leaves the database
-- as it is.
pub checkout_replay :
    (actor : Actor) (dto : Checkout) (mode : CheckoutMode) (db db' : Db) (r : Response)
    → IsWellFormed db
    → checkout actor dto mode db ≡ ok (r, db')
    → checkout actor dto mode db' ≡ ok (r, db')
unfolding checkout answer
checkout_replay actor dto mode db db' r w h =
    let (party, allowed, h1) = reads-bind (authorize actor) _ db h in
    elim (Option-cases (find (with_client_id actor dto.client_transaction_id) db.transactions)) [
      | inr (t, known) ↦
          let known_answer =
            sym (ap (λ (o : Option Transaction). answer actor party dto mode o db) known) ∙ h1 in
          ap (checkout actor dto mode) (answer-known actor party dto mode t db db' r known_answer)
          ∙ h
      | inl new ↦
          let sale =
            sym (ap (λ (o : Option Transaction). answer actor party dto mode o db) new) ∙ h1 in
          replay-of_sale actor party dto mode db r db' w allowed new
            (new_sale-SaleOf actor party dto mode db r db' sale)
    ]

-- A checkout that succeeded on a well-formed database, sent again on the database that it left,
-- succeeds with the same response and changes nothing.
pub execute_transaction_core-replay :
    (actor : Actor) (dto : CheckoutDto) (mode : CheckoutMode) (db db' : Db) (r : Response)
    → IsWellFormed db
    → execute_transaction_core actor dto mode db ≡ ok (r, db')
    → execute_transaction_core actor dto mode db' ≡ ok (r, db')
unfolding execute_transaction_core
execute_transaction_core-replay actor dto mode db db' r w h =
    let (validated, valid, h1) = reads-bind (λ d. assert_checkout_input dto mode) _ db h in
    let normalized = normalize_checkout_dto validated mode in
    let (_, shaped, h2) = reads-bind (λ d. assert_payment_shape normalized.payment) _ db h1 in
    bind-eq (lift (assert_checkout_input dto mode)) _ db'
      (reads-eq (λ d. assert_checkout_input dto mode) db' valid)
    ∙ bind-eq (lift (assert_payment_shape normalized.payment)) _ db'
        (reads-eq (λ d. assert_payment_shape normalized.payment) db' shaped)
    ∙ checkout_replay actor normalized mode db db' r w h2
