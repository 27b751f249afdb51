-- ===== src/HeldOrders/Access.antt =====
-- `actorContext`, `principal`, `readScope` and `authorizeWrite` of held-orders.service.ts.
use kasirk_backend.Base.{
  ℕ, Bool, true, false, ◌&&◌, not, Option, none, some, ◌==◌, opt_eq, find, any,
}
use kasirk_backend.Common.Errors.{
  Result, ok, ◌>>=◌, ◌>>◌, raise_if, or_raise, unauthorized, forbidden, not_found,
  user_or_tenant_inactive, tenant_inactive, role_not_allowed, outlet_access_denied,
  outlet_not_found, invalid_cashier_session, session_outlet_mismatch,
}
use kasirk_backend.Common.Roles.{Role, is_known, is_cashier}
use kasirk_backend.Database.Rows.{Db, User, Tenant, HeldOrder, is_open}

-- The signed-in user with its ids in lower case, and the role that the access token names.
pub record HeldActor : Type 0 where
  pub tenant_id : ℕ
  pub sub : ℕ
  pub role : Role

-- The active user, of an active tenant.
unfoldable pub principal : HeldActor → Db → Result User
principal actor db = do
  user ←
      or_raise
        (find
          (λ u.
            u.id == actor.sub
            && u.tenant_id == actor.tenant_id
            && u.is_active
            && any (λ t. t.id == actor.tenant_id && t.is_active) db.tenants)
          db.users)
        (unauthorized user_or_tenant_inactive)
  raise_if (not (is_known user.role)) (forbidden role_not_allowed)
  ok user

active_outlet : ℕ → ℕ → Db → Bool
active_outlet tenant outlet db =
    any (λ o. o.id == outlet && o.tenant_id == tenant && o.is_active) db.outlets

-- The outlet that a reader is confined to: the one asked for, and a cashier's own.
unfoldable pub confine : User → Option ℕ → Result (Option ℕ)
confine user requested = elim (is_cashier user.role) [
  | false ↦ ok requested
  | true ↦ elim user.outlet_id [
    | none ↦ raise_if true (forbidden outlet_access_denied) >> ok none
    | some own ↦ elim requested [
      | none ↦ ok (some own)
      | some asked ↦ raise_if (not (asked == own)) (forbidden outlet_access_denied) >> ok (some own)
    ]
  ]
]

outlet_exists : ℕ → Option ℕ → Db → Bool
unfolding active_outlet
outlet_exists tenant none db = true
outlet_exists tenant (some o) db = active_outlet tenant o db

unfoldable pub read_scope : HeldActor → Option ℕ → Db → Result (Option ℕ)
unfolding principal confine outlet_exists
read_scope actor requested db = do
  user ← principal actor db
  outlet ← confine user requested
  raise_if (not (outlet_exists actor.tenant_id outlet db)) (not_found outlet_not_found)
  ok outlet

-- A row is in the reader's scope.
abbrev pub in_scope : ℕ → Option ℕ → HeldOrder → Bool
in_scope tenant none o = o.tenant_id == tenant
in_scope tenant (some outlet) o = o.tenant_id == tenant && o.outlet_id == outlet

pub record Granted : Type 0 where
  pub tenant : Tenant
  pub user : User

-- The row lock on the session (`FOR UPDATE`) orders this with a shift's close; within one
-- transaction it changes nothing.
unfoldable pub authorize_write : HeldActor → ℕ → ℕ → Db → Result Granted
unfolding principal active_outlet
authorize_write actor outlet session_id db = do
  user ← principal actor db
  raise_if (is_cashier user.role && not (opt_eq user.outlet_id (some outlet)))
      (forbidden outlet_access_denied)
  tenant ←
      or_raise (find (λ t. t.id == actor.tenant_id && t.is_active) db.tenants)
        (unauthorized tenant_inactive)
  raise_if (not (active_outlet actor.tenant_id outlet db)) (not_found outlet_not_found)
  session ←
      or_raise
        (find
          (λ s.
            s.id == session_id
            && s.tenant_id == actor.tenant_id
            && s.user_id == actor.sub
            && is_open s.status)
          db.cashier_sessions)
        (forbidden invalid_cashier_session)
  raise_if (not (session.outlet_id == outlet)) (forbidden session_outlet_mismatch)
  ok (record { tenant = tenant; user = user })
