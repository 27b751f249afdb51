-- ===== src/HeldOrders/Write.antt =====
-- `create`, `update` and `cancel` of held-orders.service.ts, each as the body of its transaction,
-- and the entry points that validate first.
use kasirk_backend.Base.{
  ℕ, suc, ◌+◌, Bool, ◌&&◌, not, [], ◌∷◌, ◌++◌, Option, none, some, ◌==◌, select, update,
  count_where, any,
}
use kasirk_backend.Base.Text.{Text, lower_case}
use kasirk_backend.Common.Errors.{ok, HttpException}
use kasirk_backend.Database.Rows.{
  Db, HeldOrder, HeldOrderItem, open_order, cancelled_order, is_open_order,
}
use kasirk_backend.Database.Client.{Tx, ◌>>=◌, ◌>>◌, pure, gets, modify, reads, raise_if}
use kasirk_backend.HeldOrders.Dto.{
  CreateHeldOrderDto, UpdateHeldOrderDto, Patch, absent, null, given, label,
}
use kasirk_backend.HeldOrders.Access.{HeldActor}
use kasirk_backend.HeldOrders.Read.{
  HeldDetail, Revision, read_detail, prepare_order, find_open, revise, version_conflict, is_order,
}
use kasirk_backend.HeldOrders.Resolve.{Estimates, persist_items}

unfoldable pub insert_order : HeldActor → ℕ → ℕ → Option Text → Estimates → Tx ℕ
insert_order actor outlet session text t db =
    ok
      (db.next_id, record db { held_orders = db.held_orders ++ row ∷ []; next_id = suc db.next_id })
  where
    row : HeldOrder
    row = record {
      id = db.next_id;
      tenant_id = actor.tenant_id;
      outlet_id = outlet;
      origin_cashier_session_id = session;
      cashier_user_id = actor.sub;
      label = text;
      status = open_order;
      version = 1;
      subtotal_estimate = t.subtotal_estimate;
      tax_estimate = t.tax_estimate;
      total_estimate = t.total_estimate;
      converted_transaction_id = none;
      cancelled_at = none;
      converted_at = none;
    }

-- `create`, inside its transaction.
unfoldable pub create_order : HeldActor → CreateHeldOrderDto → Tx HeldDetail
unfolding insert_order
create_order actor dto = do
  prepared ← reads (prepare_order actor dto)
  id ←
      insert_order actor (lower_case dto.outlet_id) (lower_case dto.cashier_session_id)
        (label dto.label) prepared.totals
  persist_items actor.tenant_id id 0 prepared.resolved
  reads (read_detail actor.tenant_id id)

-- The row that a guarded write may change: open, at the expected version.
abbrev pub claimable : ℕ → ℕ → ℕ → HeldOrder → Bool
claimable tenant id version o =
    is_order tenant id o && is_open_order o.status && o.version == version

-- `updateMany` on the claimable row, and the test that it changed exactly one.
unfoldable pub guarded_update :
    ℕ → ℕ → ℕ → HttpException → (Db → HeldOrder → HeldOrder) → Tx (Unit {0})
guarded_update tenant id version conflicting change = do
  db ← gets (λ db. db)
  modify λ db'. record db' {
    held_orders = update (claimable tenant id version) (change db) db.held_orders;
  }
  raise_if (not (count_where (claimable tenant id version) db.held_orders == 1)) conflicting

-- `deleteMany` of the lines; the foreign key cascades to their modifiers.
unfoldable pub delete_items : ℕ → ℕ → Tx (Unit {0})
delete_items tenant order = modify λ db.
    let gone = λ (i : HeldOrderItem). i.tenant_id == tenant && i.held_order_id == order in
    record db {
      held_order_items = select (λ i. not (gone i)) db.held_order_items;
      held_order_item_modifiers =
          select (λ m. not (any (λ i. gone i && i.id == m.held_order_item_id) db.held_order_items))
            db.held_order_item_modifiers;
    }

abbrev pub set_label : Patch Text → HeldOrder → HeldOrder
set_label absent o = o
set_label null o = record o { label = none }
set_label (given s) o = record o { label = label (some s) }

abbrev pub set_totals : Option Revision → HeldOrder → HeldOrder
set_totals none o = o
set_totals (some r) o = record o {
  subtotal_estimate = r.totals.subtotal_estimate;
  tax_estimate = r.totals.tax_estimate;
  total_estimate = r.totals.total_estimate;
}

unfoldable pub replace_items : ℕ → ℕ → Option Revision → Tx (Unit {0})
unfolding delete_items
replace_items tenant id none = pure tt
replace_items tenant id (some r) = delete_items tenant id >> persist_items tenant id 0 r.resolved

abbrev bump : HeldOrder → HeldOrder
bump o = record o { version = o.version + 1 }

abbrev pub update_row : Patch Text → Option Revision → Db → HeldOrder → HeldOrder
update_row text revision db o = bump (set_totals revision (set_label text o))

-- `update`, inside its transaction.
unfoldable pub update_order : HeldActor → ℕ → UpdateHeldOrderDto → Tx HeldDetail
unfolding guarded_update replace_items
update_order actor id dto = do
  current ← reads (find_open actor id dto.expected_version)
  revision ← reads (revise actor dto.items)
  guarded_update actor.tenant_id id dto.expected_version version_conflict
      (update_row dto.label revision)
  replace_items actor.tenant_id id revision
  reads (read_detail actor.tenant_id id)

abbrev pub cancel_row : Db → HeldOrder → HeldOrder
cancel_row db o = record o {
  status = cancelled_order;
  cancelled_at = some db.clock;
  version = o.version + 1;
}

-- `cancel`, inside its transaction.
unfoldable pub cancel_order : HeldActor → ℕ → ℕ → Tx HeldDetail
unfolding guarded_update
cancel_order actor id expected_version = do
  current ← reads (find_open actor id expected_version)
  guarded_update actor.tenant_id id expected_version version_conflict cancel_row
  reads (read_detail actor.tenant_id id)
