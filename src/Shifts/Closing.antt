-- ===== src/Shifts/Closing.antt =====
-- `close` of shifts.service.ts: what it has found, and the session after it.
use kasirk_backend.Base.{
  ℕ, ◌≡◌, refl, sym, ap, subst, ◌∙◌, Bool, true, false, ◌&&◌, not, List, [], ◌∷◌, some, arith, ◌==◌,
  ltb, find, count_where, update, find-true, and_parts, ==_eq,
}
use kasirk_backend.Base.Text.{IdText, uuid, malformed}
use kasirk_backend.Common.Errors.{
  Result, ok, err, http, HttpException, ◌>>◌, conflict, ok-inj, >>=-eq-ok, raise_if-eq-ok, ◌>>=◌,
  raise_if, or_raise, forbidden, not_found, shift_not_found, shift_access_denied, or_raise-eq-ok,
  shift_already_closed,
}
use kasirk_backend.Common.Roles.{is_cashier}
use kasirk_backend.Database.Rows.{Db, CashierSession, is_open}
use kasirk_backend.Database.Client.{reads-bind, bind-ok, raise_if-ok, lift-ok}
use kasirk_backend.Shifts.Access.{ShiftActor, actor_context}
use kasirk_backend.Shifts.Read.{ShiftResponse}
use kasirk_backend.Shifts.Summary.{derive_summary}
use kasirk_backend.Shifts.Close.{
  is_shift, blocks_close, close_row, check_no_held, check_close, close_session, read_closed,
  close_shift,
}

-- What a close has found: the session, open, without OPEN held orders.
pub record IsClosable (sub tenant : IdText) (id : ℕ) (db : Db) (actor : ShiftActor)
    (s : CashierSession) : Type 0 where
  pub known : actor_context sub tenant db ≡ ok actor
  pub found : find (is_shift actor.tenant_id id) db.cashier_sessions ≡ some s
  pub own : (is_cashier actor.role && not (s.user_id == actor.user_id)) ≡ false
  pub was_open : is_open s.status ≡ true
  pub no_held : count_where (blocks_close actor.tenant_id s.id) db.held_orders ≡ 0

not-false : (b : Bool) → not b ≡ false → b ≡ true
not-false true h = refl
not-false false h = sym h

ltb_zero : (n : ℕ) → ltb 0 n ≡ false → n ≡ 0
ltb_zero n h = ground arith

check_close-IsClosable :
    (sub tenant : IdText) (id : ℕ) (db : Db) (actor : ShiftActor) (s : CashierSession)
    → check_close sub tenant id db ≡ ok (actor, s)
    → IsClosable sub tenant id db actor s
unfolding check_close check_no_held
check_close-IsClosable sub tenant id db actor s h =
    let (a, known, h1) = >>=-eq-ok (actor_context sub tenant db) _ h in
    let (x, found, h2) =
      or_raise-eq-ok (find (is_shift a.tenant_id id) db.cashier_sessions) _ _ h1 in
    let (own, h3) = raise_if-eq-ok (is_cashier a.role && not (x.user_id == a.user_id)) _ _ h2 in
    let (opened, h4) = raise_if-eq-ok (not (is_open x.status)) _ _ h3 in
    let (free, h5) =
      raise_if-eq-ok (ltb 0 (count_where (blocks_close a.tenant_id x.id) db.held_orders)) _ _ h4 in
    let (_, _, h6) = >>=-eq-ok (derive_summary a.tenant_id x db) _ h5 in
    let e = ok-inj h6 in
    subst (λ (p : ShiftActor × CashierSession). IsClosable sub tenant id db p.0 p.1) e
      (record {
        known = known;
        found = found;
        own = own;
        was_open = not-false (is_open x.status) opened;
        no_held = ltb_zero _ free;
      })

-- The session that was found is found closed after the update.
closed_find :
    (tenant id now : ℕ) (sessions : List CashierSession) (s : CashierSession)
    → find (is_shift tenant id) sessions ≡ some s
    → is_open s.status ≡ true
    → find
        (is_shift tenant id)
        (update (λ x. is_shift tenant id x && is_open x.status) (close_row now) sessions)
      ≡ some (close_row now s)
closed_find tenant id now [] s f o = ground arith
closed_find tenant id now (x ∷ sessions) s f o =
    ground (arith, closed_find tenant id now sessions s)

abbrev pub closed_db : ℕ → ℕ → Db → Db
closed_db tenant id db = record db {
  cashier_sessions =
      update (λ x. is_shift tenant id x && is_open x.status) (close_row db.clock)
        db.cashier_sessions;
}

close_session-ok :
    (tenant id : ℕ) (db db' : Db) {u : Unit {0}}
    → close_session tenant id db ≡ ok (u, db')
    → db' ≡ closed_db tenant id db
unfolding close_session
close_session-ok tenant id db db' h =
    (raise_if-ok
      (not (count_where (λ x. is_shift tenant id x && is_open x.status) db.cashier_sessions == 1)) _
      _ h).1

bind-known :
    {A B : Type 0} (first : Result A) (next : A → Result B) {a : A}
    → first ≡ ok a
    → (first >>= next) ≡ next a
bind-known m f e = ap (λ r. r >>= f) e

raise_if-true :
    {B : Type 0} (t : Bool) (e : HttpException) (k : Result B)
    → t ≡ true
    → (raise_if t e >> k) ≡ err (http e)
raise_if-true true e k h = refl
raise_if-true false e k h = cc

-- A session that is closed is not closed again.
check_close-closed :
    (sub tenant : IdText) (id : ℕ) (db : Db) (actor : ShiftActor) (s : CashierSession)
    → actor_context sub tenant db ≡ ok actor
    → find (is_shift actor.tenant_id id) db.cashier_sessions ≡ some s
    → (is_cashier actor.role && not (s.user_id == actor.user_id)) ≡ false
    → is_open s.status ≡ false
    → check_close sub tenant id db ≡ err (http (conflict shift_already_closed))
unfolding check_close
check_close-closed sub tenant id db actor s a f own closed =
    bind-known (actor_context sub tenant db) _ a
    ∙ bind-known (or_raise (find (is_shift actor.tenant_id id) db.cashier_sessions) _) _
        (ap (λ o. or_raise o (not_found shift_not_found)) f)
    ∙ bind-known (raise_if (is_cashier actor.role && not (s.user_id == actor.user_id)) _) _
        (ap (λ b. raise_if b (forbidden shift_access_denied)) own)
    ∙ raise_if-true (not (is_open s.status)) _ _ (ap not closed)

actor_context-closed :
    (sub tenant : IdText) (t id : ℕ) (db : Db) (actor : ShiftActor)
    → actor_context sub tenant db ≡ ok actor
    → actor_context sub tenant (closed_db t id db) ≡ ok actor
unfolding actor_context
actor_context-closed (malformed _) tenant t id db actor h = h
actor_context-closed (uuid _) (malformed _) t id db actor h = h
actor_context-closed (uuid s) (uuid x) t id db actor h = h

-- A close that succeeds has found the shift open, the actor's own or the actor no cashier, and
-- without OPEN held orders; it is then closed, still without OPEN held orders, and the checks of a
-- second close raise that it is already closed.
pub close_shift-closes :
    (sub tenant : IdText) (id : ℕ) (db db' : Db) (r : ShiftResponse)
    → close_shift sub tenant id db ≡ ok (r, db')
    → (actor : ShiftActor) × (s : CashierSession) × IsClosable sub tenant id db actor s
      × (find (is_shift actor.tenant_id id) db'.cashier_sessions ≡ some (close_row db.clock s))
      × (count_where (blocks_close actor.tenant_id id) db'.held_orders ≡ 0)
      × (check_close sub tenant id db' ≡ err (http (conflict shift_already_closed)))
unfolding close_shift
close_shift-closes sub tenant id db db' r h =
    let (found, checked, h1) = reads-bind (check_close sub tenant id) _ db h in
    let (actor, s) = found in
    let c = check_close-IsClosable sub tenant id db actor s checked in
    let (_, mid, closed, h2) = bind-ok (close_session actor.tenant_id s.id) _ db h1 in
    let (at, _) =
      and_parts (s.id == id) (s.tenant_id == actor.tenant_id)
        (find-true (is_shift actor.tenant_id id) db.cashier_sessions s c.found) in
    let same_id = ==_eq s.id id at in
    let e =
      (lift-ok (read_closed actor.tenant_id s.id mid) mid h2).1
      ∙ close_session-ok actor.tenant_id s.id db mid closed
      ∙ ap (λ n. closed_db actor.tenant_id n db) same_id in
    let shut = closed_find actor.tenant_id id db.clock db.cashier_sessions s c.found c.was_open in
    (
      actor,
      s,
      c,
      subst
          (λ (d : Db).
            find (is_shift actor.tenant_id id) d.cashier_sessions ≡ some (close_row db.clock s))
          (sym e) shut,
      subst (λ (d : Db). count_where (blocks_close actor.tenant_id id) d.held_orders ≡ 0) (sym e)
          (subst (λ n. count_where (blocks_close actor.tenant_id n) db.held_orders ≡ 0) same_id
            c.no_held),
      subst (λ (d : Db). check_close sub tenant id d ≡ err (http (conflict shift_already_closed)))
          (sym e)
          (check_close-closed sub tenant id (closed_db actor.tenant_id id db) actor
            (close_row db.clock s)
            (actor_context-closed sub tenant actor.tenant_id id db actor c.known) shut c.own refl),
    )
