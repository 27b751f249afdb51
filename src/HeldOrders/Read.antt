-- ===== src/HeldOrders/Read.antt =====
-- What the operations of held-orders.service.ts read: an order with its lines, the order that a
-- request names in the reader's scope, and the new lines and estimates of an update.
use kasirk_backend.Base.{
  ℕ, Bool, ◌&&◌, not, List, map, Option, none, some, ◌==◌, find, select, sum_by,
}
use kasirk_backend.Base.Text.{lower_case}
use kasirk_backend.Common.Errors.{
  Result, ok, ◌>>=◌, ◌>>◌, raise_if, or_raise, HttpException, unauthorized, not_found, conflict,
  tenant_inactive, held_order_not_found, held_order_not_open, held_order_version_conflict,
  held_order_resource_conflict,
}
use kasirk_backend.Database.Rows.{
  Db, HeldOrder, HeldOrderItem, HeldOrderItemModifier, is_open_order,
}
use kasirk_backend.Transactions.Dto.{ItemDto, normalize_item}
use kasirk_backend.HeldOrders.Dto.{CreateHeldOrderDto}
use kasirk_backend.HeldOrders.Access.{HeldActor, read_scope, in_scope, authorize_write}
use kasirk_backend.HeldOrders.Resolve.{ResolvedItem, Estimates, resolve_items, estimate}

-- An order as `detailInclude` reads it, with its lines and their modifiers.
pub record HeldItemRecord : Type 0 where
  pub item : HeldOrderItem
  pub modifiers : List HeldOrderItemModifier

pub record HeldOrderRecord : Type 0 where
  pub order : HeldOrder
  pub items : List HeldItemRecord

abbrev pub read_held_item : Db → HeldOrderItem → HeldItemRecord
read_held_item db i = record {
  item = i;
  modifiers = select (λ m. m.held_order_item_id == i.id) db.held_order_item_modifiers;
}

unfoldable pub read_held : Db → HeldOrder → HeldOrderRecord
read_held db o = record {
  order = o;
  items = map (read_held_item db) (select (λ i. i.held_order_id == o.id) db.held_order_items);
}

-- `toDetail`: the order as it is read, and its number of pieces.
pub record HeldDetail : Type 0 where
  pub held : HeldOrderRecord
  pub item_count : ℕ

to_detail : HeldOrderRecord → HeldDetail
to_detail h = record { held = h; item_count = sum_by (λ r. r.item.quantity) h.items }

abbrev pub is_order : ℕ → ℕ → HeldOrder → Bool
is_order tenant id o = o.id == id && o.tenant_id == tenant

unfoldable pub read_detail : ℕ → ℕ → Db → Result HeldDetail
unfolding read_held to_detail
read_detail tenant id db = do
  o ← or_raise (find (is_order tenant id) db.held_orders) (conflict held_order_resource_conflict)
  ok (to_detail (read_held db o))

unfoldable pub version_conflict : HttpException
version_conflict = conflict held_order_version_conflict

-- `assertOpenVersion`
unfoldable pub assert_open_version : HeldOrder → ℕ → Result (Unit {0})
unfolding version_conflict
assert_open_version o expected =
    raise_if (not (is_open_order o.status)) (conflict held_order_not_open)
    >> raise_if (not (o.version == expected)) version_conflict

unfoldable pub find_in_scope : HeldActor → ℕ → Db → Result HeldOrder
find_in_scope actor id db = do
  scope ← read_scope actor none db
  or_raise (find (λ o. in_scope actor.tenant_id scope o && o.id == id) db.held_orders)
      (not_found held_order_not_found)

pub record Revision : Type 0 where
  pub resolved : List ResolvedItem
  pub totals : Estimates

-- The new lines and estimates of an update, where it has lines.
unfoldable pub revise : HeldActor → Option (List ItemDto) → Db → Result (Option Revision)
revise actor none db = ok none
revise actor (some items) db = do
  tenant ←
      or_raise (find (λ t. t.id == actor.tenant_id && t.is_active) db.tenants)
        (unauthorized tenant_inactive)
  resolved ← resolve_items actor.tenant_id (map normalize_item items) db
  totals ← estimate tenant resolved
  ok (some (record { resolved = resolved; totals = totals }))

pub record Prepared : Type 0 where
  pub resolved : List ResolvedItem
  pub totals : Estimates

-- What `create` reads before it writes: the right to, the lines and the estimates.
unfoldable pub prepare_order : HeldActor → CreateHeldOrderDto → Db → Result Prepared
prepare_order actor dto db = do
  granted ← authorize_write actor (lower_case dto.outlet_id) (lower_case dto.cashier_session_id) db
  resolved ← resolve_items actor.tenant_id (map normalize_item dto.items) db
  totals ← estimate granted.tenant resolved
  ok (record { resolved = resolved; totals = totals })

-- The OPEN order at the expected version that a write names, in the actor's scope.
unfoldable pub find_open : HeldActor → ℕ → ℕ → Db → Result HeldOrder
unfolding find_in_scope assert_open_version
find_open actor id version db = do
  current ← find_in_scope actor id db
  assert_open_version current version
  ok current
