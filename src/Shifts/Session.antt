-- ===== src/Shifts/Session.antt =====
-- `open` and `serializableWrite` of shifts.service.ts.
use kasirk_backend.Base.{ℕ, suc, Bool, true, [], ◌∷◌, ◌++◌, none, if◌then◌else◌}
use kasirk_backend.Base.Text.{IdText, Uuid, lower_case}
use kasirk_backend.Common.Errors.{
  Result, ok, Failure, http, prisma, p2002, p2034, conflict, service_unavailable,
  shift_already_open, shift_retry_required, unable_to_update_shift,
}
use kasirk_backend.Database.Rows.{Db, CashierSession, open_session}
use kasirk_backend.Database.Client.{Tx, ◌>>=◌, lift, reads}
use kasirk_backend.Database.Retry.{World, Handled, again, give_up, run_attempts}
use kasirk_backend.Shifts.Access.{ShiftActor}
use kasirk_backend.Shifts.Read.{ShiftResponse, to_response, check_open}

abbrev pub new_session : ShiftActor → ℕ → Db → CashierSession
new_session actor outlet db = record {
  id = db.next_id;
  tenant_id = actor.tenant_id;
  outlet_id = outlet;
  user_id = actor.user_id;
  opening_cash = none;
  closing_cash = none;
  expected_cash = none;
  difference = none;
  status = open_session;
  opened_at = db.clock;
  closed_at = none;
}

unfoldable pub insert_session : ShiftActor → ℕ → Tx CashierSession
insert_session actor outlet db = ok (
  new_session actor outlet db,
  record db {
    cashier_sessions = db.cashier_sessions ++ new_session actor outlet db ∷ [];
    next_id = suc db.next_id;
  },
)

-- `open`, inside its transaction.
unfoldable pub open_shift : IdText → IdText → ℕ → Tx ShiftResponse
unfolding insert_session
open_shift sub tenant outlet = do
  actor ← reads (check_open sub tenant outlet)
  s ← insert_session actor outlet
  lift (to_response s)

-- The `catch` clause of `serializableWrite`.
unfoldable pub handle_write : Bool → Failure → Handled
handle_write opening (prisma (p2002 m)) =
    if opening then give_up (http (conflict shift_already_open)) else give_up (prisma (p2002 m))
handle_write opening (prisma p2034) = again (http (service_unavailable shift_retry_required))
handle_write opening e = give_up e

-- `serializableWrite`
unfoldable pub serializable_write : {A : Type 0} → World → Bool → Tx A → Db → Result A × Db
unfolding handle_write run_attempts
serializable_write w opening tx db =
    run_attempts (handle_write opening) (http (service_unavailable unable_to_update_shift)) w 3 0 tx
      db

unfoldable pub open_retrying : World → IdText → IdText → Uuid → Db → Result ShiftResponse × Db
unfolding open_shift serializable_write
open_retrying w sub tenant outlet =
    serializable_write w true (open_shift sub tenant (lower_case outlet))
