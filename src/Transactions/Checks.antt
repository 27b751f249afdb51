-- ===== src/Transactions/Checks.antt =====
-- The reading part of `checkout` of transactions.service.ts: who sells, whether the session, the
-- outlet, the customer and the discount are allowed, and what a new sale comes to.
use kasirk_backend.Base.{
  ℕ, Bool, true, ◌&&◌, not, List, [], Option, none, some, ◌==◌, opt_eq, ltb, find, any,
}
use kasirk_backend.Common.Errors.{
  Result, ok, ◌>>=◌, ◌>>◌, raise_if, or_raise, or_else, prisma, p2025, unauthorized, forbidden,
  not_found, user_or_tenant_inactive, role_not_allowed, invalid_cashier_session,
  session_outlet_mismatch, outlet_not_found, customer_not_found, discount_not_allowed,
}
use kasirk_backend.Common.Roles.{Role, is_known, is_cashier}
use kasirk_backend.Database.Rows.{Db, User, Tenant, CashierSession, Transaction, is_open}
use kasirk_backend.Transactions.Dto.{Checkout, CheckoutMode, v1, legacy_sync}
use kasirk_backend.Transactions.Catalog.{ValidatedItem, read_catalog, validate_lines}
use kasirk_backend.Transactions.Pricing.{Totals, price_sale}
use kasirk_backend.Transactions.Persist.{Actor}
use kasirk_backend.Transactions.Response.{Response, read_record, to_response}

pub record Party : Type 0 where
  pub user : User
  pub tenant : Tenant

-- The active user and tenant of the actor.
unfoldable pub authorize : Actor → Db → Result Party
authorize actor db = do
  user ←
      or_raise
        (find (λ u. u.id == actor.sub && u.tenant_id == actor.tenant_id && u.is_active) db.users)
        (unauthorized user_or_tenant_inactive)
  tenant ←
      or_raise (find (λ t. t.id == actor.tenant_id && t.is_active) db.tenants)
        (unauthorized user_or_tenant_inactive)
  raise_if (not (is_known user.role)) (forbidden role_not_allowed)
  ok (record { user = user; tenant = tenant })

abbrev pub with_client_id : Actor → ℕ → Transaction → Bool
with_client_id actor client t = t.tenant_id == actor.tenant_id && t.client_transaction_id == client

unfoldable pub own_open_session : Actor → Option ℕ → CashierSession → Bool
own_open_session actor id s =
    opt_eq (some s.id) id
    && s.tenant_id == actor.tenant_id
    && s.user_id == actor.sub
    && is_open s.status

-- The session that the request names is the actor's, open, and at the request's outlet.
unfoldable pub check_session : Actor → Checkout → CheckoutMode → Db → Result (Unit {0})
unfolding own_open_session
check_session actor dto legacy_sync db = ok tt
check_session actor dto v1 db = do
  session ←
      or_raise (find (own_open_session actor dto.cashier_session_id) db.cashier_sessions)
        (forbidden invalid_cashier_session)
  raise_if (not (session.outlet_id == dto.outlet_id)) (forbidden session_outlet_mismatch)

customer_known : Actor → Option ℕ → Db → Bool
customer_known actor none db = true
customer_known actor (some c) db =
    any (λ r. r.id == c && r.tenant_id == actor.tenant_id) db.customers

-- The outlet, the customer and the right to give a discount.
unfoldable pub check_place : Actor → Role → Checkout → Db → Result (Unit {0})
unfolding customer_known
check_place actor role dto db = do
  raise_if
      (not (
        any (λ o. o.id == dto.outlet_id && o.tenant_id == actor.tenant_id && o.is_active)
          db.outlets))
      (not_found outlet_not_found)
  raise_if (not (customer_known actor dto.customer_id db)) (not_found customer_not_found)
  raise_if (ltb 0 dto.discount && is_cashier role) (forbidden discount_not_allowed)

-- The transaction that was just completed, as the last statement of `checkout` reads it. An update
-- whose row is missing raises P2025.
unfoldable pub read_response : (Transaction → Bool) → Db → Result Response
read_response which db = do
  t ← or_else (find which db.transactions) (prisma p2025)
  to_response [] (read_record db t)

-- The lines and figures of a sale that is not there yet.
pub record Prepared : Type 0 where
  pub items : List ValidatedItem
  pub totals : Totals

unfoldable pub prepare_sale : Actor → Party → Checkout → CheckoutMode → Db → Result Prepared
unfolding check_session check_place
prepare_sale actor party dto mode db = do
  check_session actor dto mode db
  check_place actor party.user.role dto db
  catalog ← read_catalog actor.tenant_id dto.lines db
  items ← validate_lines catalog dto.lines
  totals ← price_sale party.tenant items dto.discount dto.payment
  ok (record { items = items; totals = totals })
