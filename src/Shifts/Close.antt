-- ===== src/Shifts/Close.antt =====
-- `close` of shifts.service.ts: an open session without open held orders becomes closed.
use kasirk_backend.Base.{
  ℕ, Bool, false, ◌&&◌, not, none, some, ◌==◌, find, update, count_where, ltb,
}
use kasirk_backend.Base.Text.{IdText, uuid, malformed, lower_case}
use kasirk_backend.Common.Errors
use kasirk_backend.Common.Errors.{
  Result, ok, err, http, bad_request, forbidden, not_found, conflict, internal_error, invalid_id,
  shift_not_found, shift_access_denied, shift_already_closed, open_held_orders_exist,
  unable_to_read_shift,
}
use kasirk_backend.Common.Roles.{is_cashier}
use kasirk_backend.Database.Rows.{
  Db, CashierSession, closed_session, is_open, HeldOrder, is_open_order,
}
use kasirk_backend.Database.Client.{Tx, ◌>>=◌, ◌>>◌, gets, modify, reads, raise_if}
use kasirk_backend.Database.Retry.{World}
use kasirk_backend.Shifts.Access.{ShiftActor, actor_context}
use kasirk_backend.Shifts.Read.{ShiftResponse, to_response}
use kasirk_backend.Shifts.Session.{serializable_write}
use kasirk_backend.Shifts.Summary.{derive_summary}

-- An OPEN order that began in the session.
abbrev pub blocks_close : ℕ → ℕ → HeldOrder → Bool
blocks_close tenant session o =
    o.tenant_id == tenant && o.origin_cashier_session_id == session && is_open_order o.status

abbrev pub close_row : ℕ → CashierSession → CashierSession
close_row now s = record s {
  status = closed_session;
  closing_cash = none;
  expected_cash = none;
  difference = none;
  closed_at = some now;
}

abbrev pub is_shift : ℕ → ℕ → CashierSession → Bool
is_shift tenant id s = s.id == id && s.tenant_id == tenant

-- `updateMany` from OPEN to CLOSED, and the test that it changed one row.
unfoldable pub close_session : ℕ → ℕ → Tx (Unit {0})
close_session tenant id = do
  db ← gets (λ db. db)
  let matches = λ (s : CashierSession). is_shift tenant id s && is_open s.status
  modify λ db'. record db' {
    cashier_sessions = update matches (close_row db.clock) db.cashier_sessions;
  }
  raise_if (not (count_where matches db.cashier_sessions == 1)) (conflict shift_already_closed)

-- The sessions' OPEN held orders block the close.
unfoldable pub check_no_held : ℕ → CashierSession → Db → Result (Unit {0})
check_no_held tenant s db =
    let blocking = count_where (blocks_close tenant s.id) db.held_orders in
    Errors.raise_if (ltb 0 blocking) (conflict (open_held_orders_exist blocking))

-- What `close` reads before it writes: the actor's session, open and without OPEN held orders.
unfoldable pub check_close : IdText → IdText → ℕ → Db → Result (ShiftActor × CashierSession)
check_close sub tenant id db = Errors.◌>>=◌ (actor_context sub tenant db) λ actor.
    Errors.◌>>=◌
      (Errors.or_raise (find (is_shift actor.tenant_id id) db.cashier_sessions)
        (not_found shift_not_found))
      λ s.
        Errors.◌>>◌
          (Errors.raise_if (is_cashier actor.role && not (s.user_id == actor.user_id))
            (forbidden shift_access_denied))
          (Errors.◌>>◌ (Errors.raise_if (not (is_open s.status)) (conflict shift_already_closed)) (
            Errors.◌>>◌ (check_no_held actor.tenant_id s db)
              (Errors.◌>>◌ (derive_summary actor.tenant_id s db) (ok (actor, s)))))

-- The session as it is after the update.
unfoldable pub read_closed : ℕ → ℕ → Db → Result ShiftResponse
read_closed tenant id db =
    Errors.◌>>=◌
      (Errors.or_raise (find (is_shift tenant id) db.cashier_sessions)
        (internal_error unable_to_read_shift))
      to_response

-- The body of the transaction. The lock on the session's row (`FOR UPDATE`) orders it with the
-- creation of held orders; within one transaction it changes nothing.
unfoldable pub close_shift : IdText → IdText → ℕ → Tx ShiftResponse
unfolding close_session read_closed
close_shift sub tenant id = do
  found ← reads (check_close sub tenant id)
  close_session found.0.tenant_id found.1.id
  reads (read_closed found.0.tenant_id found.1.id)

-- `close`
unfoldable pub close : World → IdText → IdText → IdText → Db → Result ShiftResponse × Db
unfolding close_shift serializable_write
close w sub tenant (malformed _) db = (err (http (bad_request invalid_id)), db)
close w sub tenant (uuid id) db =
    serializable_write w false (close_shift sub tenant (lower_case id)) db
