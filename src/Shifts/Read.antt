-- ===== src/Shifts/Read.antt =====
-- `current`, `toResponse` and the checks of `open` of shifts.service.ts.
use kasirk_backend.Base.{
  ℕ, Bool, ◌&&◌, ◌||◌, not, Option, some, if◌then◌else◌, ◌==◌, opt_eq, find, any,
}
use kasirk_backend.Base.Int.{ℤ}
use kasirk_backend.Base.Text.{IdText}
use kasirk_backend.Common.Errors.{
  Result, ok, ◌>>=◌, ◌>>◌, raise_if, or_raise, forbidden, not_found, conflict, outlet_access_denied,
  outlet_not_found, shift_already_open, open_shift_not_found,
}
use kasirk_backend.Common.Roles.{is_cashier}
use kasirk_backend.Database.Rows.{Db, CashierSession, SessionStatus, is_open}
use kasirk_backend.Transactions.Dto.{is_present}
use kasirk_backend.Shifts.Access.{ShiftActor, actor_context, optional_money}

pub data ReconciliationMode : Type 0 where
  legacy none_mode : ReconciliationMode

pub record ShiftResponse : Type 0 where
  pub shift_id : ℕ
  pub outlet_id : ℕ
  pub user_id : ℕ
  pub opening_cash : Option ℤ
  pub closing_cash : Option ℤ
  pub expected_cash : Option ℤ
  pub difference : Option ℤ
  pub status : SessionStatus
  pub opened_at : ℕ
  pub closed_at : Option ℕ
  pub reconciliation_mode : ReconciliationMode

-- A session with any cash value is from before the non-reconciling shifts.
has_cash : CashierSession → Bool
has_cash s =
    is_present s.opening_cash
    || is_present s.closing_cash
    || is_present s.expected_cash
    || is_present s.difference

unfoldable pub to_response : CashierSession → Result ShiftResponse
unfolding has_cash optional_money
to_response s = do
  opening ← optional_money s.opening_cash
  closing ← optional_money s.closing_cash
  expected ← optional_money s.expected_cash
  difference ← optional_money s.difference
  ok (record {
    shift_id = s.id;
    outlet_id = s.outlet_id;
    user_id = s.user_id;
    opening_cash = opening;
    closing_cash = closing;
    expected_cash = expected;
    difference = difference;
    status = s.status;
    opened_at = s.opened_at;
    closed_at = s.closed_at;
    reconciliation_mode = if has_cash s then legacy else none_mode;
  })

abbrev pub open_of : ℕ → ℕ → CashierSession → Bool
open_of tenant user s = s.tenant_id == tenant && s.user_id == user && is_open s.status

-- What `open` reads before it writes: the actor, who may open at the outlet and has no open session.
unfoldable pub check_open : IdText → IdText → ℕ → Db → Result ShiftActor
check_open sub tenant outlet db = do
  actor ← actor_context sub tenant db
  raise_if (is_cashier actor.role && not (opt_eq actor.outlet_id (some outlet)))
      (forbidden outlet_access_denied)
  raise_if
      (not (any (λ o. o.id == outlet && o.tenant_id == actor.tenant_id && o.is_active) db.outlets))
      (not_found outlet_not_found)
  raise_if (any (open_of actor.tenant_id actor.user_id) db.cashier_sessions)
      (conflict shift_already_open)
  ok actor

-- `current`: the latest open session. (A user has at most one.)
unfoldable pub current_shift : IdText → IdText → Db → Result ShiftResponse
unfolding to_response
current_shift sub tenant db = do
  actor ← actor_context sub tenant db
  s ←
      or_raise (find (open_of actor.tenant_id actor.user_id) db.cashier_sessions)
        (not_found open_shift_not_found)
  to_response s
