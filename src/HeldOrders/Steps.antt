-- ===== src/HeldOrders/Steps.antt =====
-- The writes that the operations of held-orders.service.ts are made of, and what they do to the
-- table of orders.
use kasirk_backend.Base.{
  ℕ, suc, ◌≤◌, ◌≡◌, sym, ap, subst, ◌∙◌, true, List, [], ◌∷◌, Option, none, some, arith, inl, inr,
  Option-cases, find,
}
use kasirk_backend.Common.Errors.{ok, HttpException, ok-pair}
use kasirk_backend.Database.Rows.{Db, HeldOrder, Transaction}
use kasirk_backend.Database.Client.{raise_if-ok, reads-bind}
use kasirk_backend.Transactions.Dto.{CheckoutDto, Checkout, CheckoutMode, normalize_checkout_dto}
use kasirk_backend.Transactions.Tender.{assert_checkout_input, assert_payment_shape}
use kasirk_backend.Transactions.Catalog.{ResolvedOption}
use kasirk_backend.Transactions.Persist.{Actor}
use kasirk_backend.Transactions.Response.{Response}
use kasirk_backend.Transactions.Checks.{with_client_id}
use kasirk_backend.Transactions.Core.{checkout, answer, execute_transaction_core}
use kasirk_backend.Transactions.Core.Idempotent.{answer-known}
use kasirk_backend.Transactions.Core.Sale.{new_sale-SaleOf}
use kasirk_backend.Transactions.Checks.{authorize}
use kasirk_backend.HeldOrders.Resolve.{
  ResolvedItem, create_held_item, create_held_modifiers, persist_items,
}
use kasirk_backend.HeldOrders.Read.{Revision}
use kasirk_backend.HeldOrders.Write.{claimable, guarded_update, delete_items, replace_items}
use kasirk_backend.HeldOrders.Evolution.{
  IsStep, Evolves, Evolves-refl, Evolves-update, Keeps, unchanged-Evolves, Keeps-bind, Keeps-pure,
}

checkout-held_orders :
    (actor : Actor) (dto : Checkout) (mode : CheckoutMode) (db db' : Db) (r : Response)
    → checkout actor dto mode db ≡ ok (r, db')
    → db'.held_orders ≡ db.held_orders
unfolding checkout answer
checkout-held_orders actor dto mode db db' r h =
    let (party, _, h1) = reads-bind (authorize actor) _ db h in
    elim (Option-cases (find (with_client_id actor dto.client_transaction_id) db.transactions)) [
      | inr (t, known) ↦
          ap (λ (d : Db). d.held_orders)
            (answer-known actor party dto mode t db db' r
              (sym (ap (λ (o : Option Transaction). answer actor party dto mode o db) known) ∙ h1))
      | inl new ↦
          ap (λ (d : Db). d.held_orders)
            (new_sale-SaleOf actor party dto mode db r db' (
              sym (ap (λ (o : Option Transaction). answer actor party dto mode o db) new)
              ∙ h1)).stored
    ]

-- A sale does not touch held orders.
pub Keeps-sale :
    (actor : Actor) (dto : CheckoutDto) (mode : CheckoutMode)
    → Keeps (execute_transaction_core actor dto mode)
unfolding execute_transaction_core
Keeps-sale actor dto mode db r db' h =
    let (validated, _, h1) = reads-bind (λ d. assert_checkout_input dto mode) _ db h in
    let normalized = normalize_checkout_dto validated mode in
    let (_, _, h2) = reads-bind (λ d. assert_payment_shape normalized.payment) _ db h1 in
    subst (Evolves db.held_orders) (sym (checkout-held_orders actor normalized mode db db' r h2))
      (Evolves-refl db.held_orders)

pub Keeps-guarded_update :
    (tenant id version : ℕ) (e : HttpException) (change : Db → HeldOrder → HeldOrder)
    → ((db : Db) (o : HeldOrder) → claimable tenant id version o ≡ true → IsStep o (change db o))
    → Keeps (guarded_update tenant id version e change)
unfolding guarded_update
Keeps-guarded_update tenant id version e change step db u db' h =
    let (_, changed) = raise_if-ok _ _ _ h in
    subst (λ (d : Db). Evolves db.held_orders d.held_orders) (sym changed)
      (Evolves-update (claimable tenant id version) (change db) (step db) db.held_orders)

-- An open order, with its version raised, is a step.
pub open-IsStep :
    (tenant id version : ℕ) (o o' : HeldOrder)
    → claimable tenant id version o ≡ true
    → o'.id ≡ o.id
    → o'.tenant_id ≡ o.tenant_id
    → o.version ≤ o'.version
    → IsStep o o'
open-IsStep tenant id version o o' c i t v = record {
  same_id = i;
  same_tenant = t;
  version_grows = v;
  terminal_stays = inl (ground arith);
}

Keeps-create_held_modifiers :
    (tenant item : ℕ) (options : List ResolvedOption)
    → Keeps (create_held_modifiers tenant item options)
unfolding create_held_modifiers
Keeps-create_held_modifiers tenant item [] db u db' h = unchanged-Evolves db db' (sym (ok-pair h).1)
Keeps-create_held_modifiers tenant item (o ∷ options) db u db' h =
    Keeps-create_held_modifiers tenant item options _ u db' h

pub Keeps-persist_items :
    (tenant order position : ℕ) (items : List ResolvedItem)
    → Keeps (persist_items tenant order position items)
unfolding persist_items create_held_item
Keeps-persist_items tenant order position [] = Keeps-pure tt
Keeps-persist_items tenant order position (i ∷ items) =
    Keeps-bind (create_held_item tenant order position i) _
      (λ db id db' h.
        subst (λ (d : Db). Evolves db.held_orders d.held_orders) (ok-pair h).1
          (Evolves-refl db.held_orders))
      λ id.
        Keeps-bind (create_held_modifiers tenant id i.options) _
          (Keeps-create_held_modifiers tenant id i.options)
          λ _. Keeps-persist_items tenant order (suc position) items

pub Keeps-replace_items :
    (tenant id : ℕ) (revision : Option Revision) → Keeps (replace_items tenant id revision)
unfolding replace_items delete_items
Keeps-replace_items tenant id none = Keeps-pure tt
Keeps-replace_items tenant id (some r) =
    Keeps-bind (delete_items tenant id) _
      (λ db u db' h.
        subst (λ (d : Db). Evolves db.held_orders d.held_orders) (ok-pair h).1
          (Evolves-refl db.held_orders))
      λ _. Keeps-persist_items tenant id 0 r.resolved
