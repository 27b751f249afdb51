-- ===== src/HeldOrders/Lifecycle.antt =====
-- The operations of held-orders.service.ts and the table of orders.
use kasirk_backend.Base.{
  ℕ, ◌+◌, ◌≤◌, ◌≡◌, refl, subst, ◌∙◌, Bool, true, false, List, [], ◌∷◌, Option, none, some, arith,
  if◌then◌else◌,
}
use kasirk_backend.Base.Text.{Text, lower_case}
use kasirk_backend.Common.Errors.{
  Result, ok, err, ok-pair, conflict, held_order_version_conflict, held_order_resource_conflict,
}
use kasirk_backend.Database.Rows.{Db, HeldOrder}
use kasirk_backend.Database.Client.{Tx, gets, lift, reads}
use kasirk_backend.Database.Retry.{finish}
use kasirk_backend.Transactions.Dto.{v1}
use kasirk_backend.Transactions.Response.{read_record}
use kasirk_backend.Transactions.Core.{execute_transaction_core}
use kasirk_backend.HeldOrders.Dto.{
  CreateHeldOrderDto, UpdateHeldOrderDto, CheckoutHeldOrderDto, Patch, absent, null, given, label,
}
use kasirk_backend.HeldOrders.Access.{HeldActor}
use kasirk_backend.HeldOrders.Resolve.{persist_items}
use kasirk_backend.HeldOrders.Read.{
  Revision, read_detail, prepare_order, find_in_scope, find_open, revise, version_conflict,
  assert_open_version, read_held,
}
use kasirk_backend.HeldOrders.Write.{
  insert_order, create_order, claimable, guarded_update, replace_items, set_label, set_totals,
  update_row, update_order, cancel_row, cancel_order,
}
use kasirk_backend.HeldOrders.Convert.{
  seller, find_linked, replay_dto, replay_conversion, check_origin, claim_row, convert_row,
  held_checkout_dto, first_conversion, is_converted, convert_held_order,
}
use kasirk_backend.HeldOrders.Evolution.{
  IsStep, Evolves, Evolves-refl, Evolves-trans, Evolves-append, Keeps, Keeps-bind, Keeps-gets,
  Keeps-pure, Keeps-lift, Keeps-reads,
}
use kasirk_backend.HeldOrders.Steps.{
  Keeps-sale, Keeps-guarded_update, open-IsStep, Keeps-persist_items, Keeps-replace_items,
}

-- Creating an order leaves the orders there as they are.
create_order-Keeps : (actor : HeldActor) (dto : CreateHeldOrderDto) → Keeps (create_order actor dto)
unfolding create_order insert_order
create_order-Keeps actor dto =
    Keeps-bind (reads (prepare_order actor dto)) _ (Keeps-reads (prepare_order actor dto))
      λ prepared.
        Keeps-bind
          (insert_order actor (lower_case dto.outlet_id) (lower_case dto.cashier_session_id)
            (label dto.label) prepared.totals)
          _
          (λ db id db' h.
            subst (λ (d : Db). Evolves db.held_orders d.held_orders) (ok-pair h).1
              (Evolves-append db.held_orders _))
          λ id.
            Keeps-bind (persist_items actor.tenant_id id 0 prepared.resolved) _
              (Keeps-persist_items actor.tenant_id id 0 prepared.resolved)
              λ _. Keeps-reads (read_detail actor.tenant_id id)

-- What an update keeps of an order.
abbrev IsSameHead : HeldOrder → HeldOrder → Type 0
IsSameHead o o' = (o'.id ≡ o.id) × (o'.tenant_id ≡ o.tenant_id) × (o.version ≤ o'.version)

set_label-head : (text : Patch Text) (o : HeldOrder) → IsSameHead o (set_label text o)
set_label-head absent o = (refl, refl, omega arith)
set_label-head null o = (refl, refl, omega arith)
set_label-head (given s) o = (refl, refl, omega arith)

set_totals-head : (r : Option Revision) (o : HeldOrder) → IsSameHead o (set_totals r o)
set_totals-head none o = (refl, refl, omega arith)
set_totals-head (some r) o = (refl, refl, omega arith)

update_row-IsStep :
    (text : Patch Text) (revision : Option Revision) (tenant id version : ℕ) (db : Db)
    (o : HeldOrder)
    → claimable tenant id version o ≡ true
    → IsStep o (update_row text revision db o)
update_row-IsStep text revision tenant id version db o c =
    let (i, t, v) = set_label-head text o in
    let (i', t', v') = set_totals-head revision (set_label text o) in
    open-IsStep tenant id version o (update_row text revision db o) c (i' ∙ i) (t' ∙ t)
      (omega (arith, v, v'))

-- Updating an order changes only an OPEN one.
update_order-Keeps :
    (actor : HeldActor) (id : ℕ) (dto : UpdateHeldOrderDto) → Keeps (update_order actor id dto)
unfolding update_order
update_order-Keeps actor id dto =
    Keeps-bind (reads (find_open actor id dto.expected_version)) _
      (Keeps-reads (find_open actor id dto.expected_version))
      λ current.
        Keeps-bind (reads (revise actor dto.items)) _ (Keeps-reads (revise actor dto.items))
          λ revision.
            Keeps-bind
              (guarded_update actor.tenant_id id dto.expected_version version_conflict
                (update_row dto.label revision))
              _
              (Keeps-guarded_update actor.tenant_id id dto.expected_version version_conflict
                (update_row dto.label revision)
                (update_row-IsStep dto.label revision actor.tenant_id id dto.expected_version))
              λ _.
                Keeps-bind (replace_items actor.tenant_id id revision) _
                  (Keeps-replace_items actor.tenant_id id revision)
                  λ _. Keeps-reads (read_detail actor.tenant_id id)

-- Cancelling an order changes only an OPEN one.
cancel_order-Keeps : (actor : HeldActor) (id version : ℕ) → Keeps (cancel_order actor id version)
unfolding cancel_order
cancel_order-Keeps actor id version =
    Keeps-bind (reads (find_open actor id version)) _ (Keeps-reads (find_open actor id version))
      λ current.
        Keeps-bind (guarded_update actor.tenant_id id version version_conflict cancel_row) _
          (Keeps-guarded_update actor.tenant_id id version version_conflict cancel_row (λ db o c.
            open-IsStep actor.tenant_id id version o (cancel_row db o) c refl refl (omega arith)))
          λ _. Keeps-reads (read_detail actor.tenant_id id)

replay_conversion-Keeps :
    (actor : HeldActor) (o : HeldOrder) (dto : CheckoutHeldOrderDto)
    → Keeps (replay_conversion actor o dto)
unfolding replay_conversion
replay_conversion-Keeps actor o dto =
    Keeps-bind (reads (find_linked actor o dto)) _ (Keeps-reads (find_linked actor o dto)) λ t.
      Keeps-bind (gets (λ (d : Db). d)) _ (Keeps-gets (λ (d : Db). d)) λ db.
        Keeps-bind
          (execute_transaction_core (seller actor) (replay_dto o (read_record db t) dto) v1) _
          (Keeps-sale (seller actor) (replay_dto o (read_record db t) dto) v1)
          λ result. Keeps-pure (record { transaction = result; replayed = true })

first_conversion-Keeps :
    (actor : HeldActor) (o : HeldOrder) (dto : CheckoutHeldOrderDto)
    → Keeps (first_conversion actor o dto)
unfolding first_conversion
first_conversion-Keeps actor o dto =
    Keeps-bind (lift (assert_open_version o dto.expected_version)) _
      (Keeps-lift (assert_open_version o dto.expected_version))
      λ _. Keeps-bind (gets (λ db. read_held db o)) _ (Keeps-gets (λ db. read_held db o)) λ lines.
        Keeps-bind (reads (check_origin actor o)) _ (Keeps-reads (check_origin actor o)) λ _.
          Keeps-bind
            (guarded_update actor.tenant_id o.id dto.expected_version
              (conflict held_order_version_conflict) claim_row)
            _
            (Keeps-guarded_update actor.tenant_id o.id dto.expected_version
              (conflict held_order_version_conflict) claim_row
              (λ db x c.
                open-IsStep actor.tenant_id o.id dto.expected_version x (claim_row db x) c refl refl
                  (omega arith)))
            λ _.
              Keeps-bind (execute_transaction_core (seller actor) (held_checkout_dto lines dto) v1)
                _ (Keeps-sale (seller actor) (held_checkout_dto lines dto) v1)
                λ result.
                  Keeps-bind
                    (guarded_update actor.tenant_id o.id (dto.expected_version + 1)
                      (conflict held_order_resource_conflict) (convert_row result.transaction_id))
                    _
                    (Keeps-guarded_update actor.tenant_id o.id (dto.expected_version + 1)
                      (conflict held_order_resource_conflict) (convert_row result.transaction_id)
                      (λ db x c.
                        open-IsStep actor.tenant_id o.id (dto.expected_version + 1) x
                          (convert_row result.transaction_id db x) c refl refl (omega arith)))
                    λ _. Keeps-pure (record { transaction = result; replayed = false })

-- Converting an order changes only an OPEN one, and repeating the conversion changes none.
convert_held_order-Keeps :
    (actor : HeldActor) (id : ℕ) (dto : CheckoutHeldOrderDto)
    → Keeps (convert_held_order actor id dto)
unfolding convert_held_order
convert_held_order-Keeps actor id dto =
    Keeps-bind (reads (find_in_scope actor id)) _ (Keeps-reads (find_in_scope actor id))
      λ o. either (is_converted o) o
  where
    either :
        (b : Bool) (o : HeldOrder)
        → Keeps (if b then replay_conversion actor o dto else first_conversion actor o dto)
    either true o = replay_conversion-Keeps actor o dto
    either false o = first_conversion-Keeps actor o dto

-- The operations on held orders, for one statement about all of them.
pub data HeldOperation : Type 0 where
  create_op : HeldActor → CreateHeldOrderDto → HeldOperation
  update_op : HeldActor → ℕ → UpdateHeldOrderDto → HeldOperation
  cancel_op : HeldActor → ℕ → ℕ → HeldOperation
  convert_op : HeldActor → ℕ → CheckoutHeldOrderDto → HeldOperation

-- The database after an operation that is carried out, or fails and is rolled back.
abbrev committed : {A : Type 0} → Tx A → Db → Db
committed tx db = (finish (tx db) db).1

abbrev pub apply : HeldOperation → Db → Db
apply (create_op actor dto) = committed (create_order actor dto)
apply (update_op actor id dto) = committed (update_order actor id dto)
apply (cancel_op actor id version) = committed (cancel_order actor id version)
apply (convert_op actor id dto) = committed (convert_held_order actor id dto)

abbrev pub run : List HeldOperation → Db → Db
run [] db = db
run (op ∷ ops) db = run ops (apply op db)

committed-Evolves :
    {A : Type 0} (tx : Tx A) (db : Db)
    → Keeps tx
    → Evolves db.held_orders (committed tx db).held_orders
committed-Evolves {A} tx db keeps = go (tx db) refl
  where
    go : (q : Result (A × Db)) → tx db ≡ q → Evolves db.held_orders (finish q db).1.held_orders
    go (ok (a, db')) h = keeps db a db' h
    go (err e) h = Evolves-refl db.held_orders

apply-Evolves : (op : HeldOperation) (db : Db) → Evolves db.held_orders (apply op db).held_orders
apply-Evolves (create_op actor dto) db = committed-Evolves _ db (create_order-Keeps actor dto)
apply-Evolves (update_op actor id dto) db = committed-Evolves _ db (update_order-Keeps actor id dto)
apply-Evolves (cancel_op actor id version) db =
    committed-Evolves _ db (cancel_order-Keeps actor id version)
apply-Evolves (convert_op actor id dto) db =
    committed-Evolves _ db (convert_held_order-Keeps actor id dto)

-- After any run of creating, updating, cancelling and converting held orders, each carried out or
-- rolled back, every order is still in its place with its id and tenant, one that was CONVERTED or
-- CANCELLED is unchanged, and no version has fallen.
pub run-Evolves :
    (ops : List HeldOperation) (db : Db) → Evolves db.held_orders (run ops db).held_orders
run-Evolves [] db = Evolves-refl db.held_orders
run-Evolves (op ∷ ops) db =
    Evolves-trans db.held_orders (apply op db).held_orders (run ops (apply op db)).held_orders
      (apply-Evolves op db) (run-Evolves ops (apply op db))
