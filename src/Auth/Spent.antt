-- ===== src/Auth/Spent.antt =====
-- Refresh tokens that were used, over the later operations of auth.service.ts.
use kasirk_backend.Base.{
  ℕ, suc, ◌≡◌, refl, sym, ap, subst, Bool, true, false, [], ◌∷◌, ◌++◌, Option, none, some, arith,
  if◌then◌else◌, ◌==◌, find, find-true, update, count_where,
}
use kasirk_backend.Base.Updates.{find-append_some, find-update}
use kasirk_backend.Base.Text.{Text}
use kasirk_backend.Common.Errors.{Result, ok, err}
use kasirk_backend.Database.Rows.{Db, User, DeviceSession, is_active_device}
use kasirk_backend.Database.Client.{pure, gets, modify}
use kasirk_backend.Database.Retry.{World}
use kasirk_backend.Database.Keeps.{
  Keeps, OthersKeep, Keeps-bind, Keeps-pure, Keeps-gets, Keeps-modify, Keeps-if,
  Keeps-run_transaction,
}
use kasirk_backend.Auth.Config.{AuthConfig}
use kasirk_backend.Auth.Tokens.{Crypto}
use kasirk_backend.Auth.Pin.{create_session}
use kasirk_backend.Auth.Refresh.{
  has_hash, same_active, rotatable, revoke, rotate, end_session, reject_session, rotate_session,
  use_session, found_session, refresh_session, refresh, refreshed, logout, session_user, usable,
  next_session,
}

-- The session of the hash is no longer ACTIVE.
abbrev pub IsSpent : ℕ → Db → Type 0
IsSpent h db =
    (s : DeviceSession) × (find (has_hash h) db.device_sessions ≡ some s)
    × (is_active_device s.status ≡ false)

-- A change of rows that keeps their hashes and makes none ACTIVE.
abbrev Retires : (DeviceSession → DeviceSession) → Type 0
Retires f =
    (s : DeviceSession)
    → ((f s).refresh_token_hash ≡ s.refresh_token_hash) × (is_active_device (f s).status ≡ false)

revoke-Retires : (now : ℕ) → Retires (revoke now)
unfolding revoke
revoke-Retires now s = (refl, refl)

rotate-Retires : (now : ℕ) → Retires (rotate now)
unfolding rotate
rotate-Retires now s = (refl, refl)

end_session-Retires : (now : ℕ) → Retires (end_session now)
unfolding end_session
end_session-Retires now s = (refl, refl)

-- `updateMany` of sessions.
abbrev pub change : (DeviceSession → Bool) → (DeviceSession → DeviceSession) → Db → Db
change q f db = record db { device_sessions = update q f db.device_sessions }

module _ (h : ℕ) where
  has_hash_same :
      (f : DeviceSession → DeviceSession)
      → Retires f
      → (s : DeviceSession) → has_hash h (f s) ≡ has_hash h s
  unfolding has_hash
  has_hash_same f r s = ap (λ (n : ℕ). n == h) (r s).0

  IsSpent-update :
      (q : DeviceSession → Bool) (f : DeviceSession → DeviceSession)
      → Retires f
      → (db : Db) → IsSpent h db
      → IsSpent h (record db { device_sessions = update q f db.device_sessions })
  IsSpent-update q f r db (s, found, off) = (
    if q s then f s else s,
    find-update (has_hash h) q f (has_hash_same f r) db.device_sessions s found,
    ground (arith, r s),
  )

  IsSpent-append :
      (db : Db) (row : DeviceSession) (n : ℕ)
      → IsSpent h db
      → IsSpent h (record db { device_sessions = db.device_sessions ++ row ∷ []; next_id = n })
  IsSpent-append db row n (s, found, off) =
      (s, find-append_some (has_hash h) db.device_sessions (row ∷ []) s found, off)

  pub create_session-Keeps : (row : ℕ → DeviceSession) → Keeps (IsSpent h) (create_session row)
  unfolding create_session
  create_session-Keeps row db a db' e p =
      ground (arith, IsSpent-append db (row db.next_id) (suc db.next_id) p)

  reject_session-Keeps :
      (k now : ℕ) (s : DeviceSession) → Keeps (IsSpent h) (reject_session k now s)
  unfolding reject_session
  reject_session-Keeps k now s =
      Keeps-if (IsSpent h) (is_active_device s.status) _ _
        (Keeps-bind (IsSpent h) (modify (change (same_active k s) (revoke now))) (λ _. pure none)
          (Keeps-modify (IsSpent h) (change (same_active k s) (revoke now))
            (IsSpent-update (same_active k s) (revoke now) (revoke-Retires now)))
          (λ _. Keeps-pure (IsSpent h) none))
        (Keeps-pure (IsSpent h) none)

  rotate_session-Keeps :
      (cfg : AuthConfig) (k next now : ℕ) (s : DeviceSession) (user : User)
      → Keeps (IsSpent h) (rotate_session cfg k next now s user)
  unfolding rotate_session
  rotate_session-Keeps cfg k next now s user =
      Keeps-bind (IsSpent h) (gets (λ db. db.device_sessions)) _
        (Keeps-gets (IsSpent h) (λ db. db.device_sessions))
        (λ rows.
          Keeps-bind (IsSpent h) (modify (change (rotatable k s) (rotate now))) _
            (Keeps-modify (IsSpent h) (change (rotatable k s) (rotate now))
              (IsSpent-update (rotatable k s) (rotate now) (rotate-Retires now)))
            (λ _.
              Keeps-if (IsSpent h) (count_where (rotatable k s) rows == 1) _ _
                (Keeps-bind (IsSpent h) (create_session (next_session cfg now next s)) _
                  (create_session-Keeps (next_session cfg now next s))
                  (λ _. Keeps-pure (IsSpent h) (some user)))
                (Keeps-pure (IsSpent h) none)))

  use_session-Keeps :
      (cfg : AuthConfig) (k next now : ℕ) (s : DeviceSession) (user : Option User) (db : Db)
      → Keeps (IsSpent h) (use_session cfg k next now s user db)
  unfolding use_session
  use_session-Keeps cfg k next now s none db = reject_session-Keeps k now s
  use_session-Keeps cfg k next now s (some user) db =
      Keeps-if (IsSpent h) (usable now db s user) _ _ (rotate_session-Keeps cfg k next now s user)
        (reject_session-Keeps k now s)

  found_session-Keeps :
      (cfg : AuthConfig) (k next now : ℕ) (db : Db) (o : Option DeviceSession)
      → Keeps (IsSpent h) (found_session cfg k next now db o)
  found_session-Keeps cfg k next now db none = Keeps-pure (IsSpent h) none
  found_session-Keeps cfg k next now db (some s) =
      use_session-Keeps cfg k next now s (session_user db s) db

  refresh_session-Keeps :
      (cfg : AuthConfig) (k next now : ℕ) → Keeps (IsSpent h) (refresh_session cfg k next now)
  unfolding refresh_session
  refresh_session-Keeps cfg k next now =
      Keeps-bind (IsSpent h) (gets (λ db. db)) _ (Keeps-gets (IsSpent h) (λ db. db))
        (λ db. found_session-Keeps cfg k next now db (find (has_hash k) db.device_sessions))

  refreshed-state :
      (c : Crypto) (token : Text) (r : Result (Option User) × Db) → (refreshed c token r).1 ≡ r.1
  refreshed-state c token (err e, db) = refl
  refreshed-state c token (ok none, db) = refl
  refreshed-state c token (ok (some u), db) = refl

  pub refresh-IsSpent :
      (c : Crypto) (cfg : AuthConfig) (w : World) (t next : Text) (db : Db)
      → OthersKeep (IsSpent h) w
      → IsSpent h db
      → IsSpent h (refresh c cfg w t next db).1
  unfolding refresh
  refresh-IsSpent c cfg w t next db o p = subst (IsSpent h) (sym (refreshed-state c next _)) (
      Keeps-run_transaction (IsSpent h) (w.faults 0) _ (w.others 0 db)
        (refresh_session-Keeps cfg (c.hash_refresh_token t) (c.hash_refresh_token next) db.clock)
        (o 0 db p))

  logged_out-IsSpent :
      (w : World) (k : ℕ) (db : Db) (o : Option DeviceSession)
      → OthersKeep (IsSpent h) w
      → IsSpent h db
      → IsSpent h (elim o [
        | none ↦ db
        | some s ↦
            let db' = w.others 0 db in
            record db' {
              device_sessions =
                  update (same_active k s) (end_session db'.clock) db'.device_sessions;
            }
      ])
  logged_out-IsSpent w k db none o p = p
  logged_out-IsSpent w k db (some s) o p =
      IsSpent-update (same_active k s) (end_session (w.others 0 db).clock)
        (end_session-Retires (w.others 0 db).clock) (w.others 0 db) (o 0 db p)

  pub logout-IsSpent :
      (c : Crypto) (w : World) (t : Text) (db : Db)
      → OthersKeep (IsSpent h) w
      → IsSpent h db
      → IsSpent h (logout c w t db)
  unfolding logout
  logout-IsSpent c w t db o p =
      logged_out-IsSpent w (c.hash_refresh_token t) db
        (find (has_hash (c.hash_refresh_token t)) db.device_sessions) o p

  rotatable_self :
      (s : DeviceSession) (db : Db)
      → find (has_hash h) db.device_sessions ≡ some s
      → is_active_device s.status ≡ true
      → rotatable h s s ≡ true
  unfolding rotatable same_active has_hash
  rotatable_self s db found on = ground (arith, find-true (has_hash h) db.device_sessions s found)

  pub rotate-IsSpent :
      (now : ℕ) (s : DeviceSession) (db : Db)
      → find (has_hash h) db.device_sessions ≡ some s
      → is_active_device s.status ≡ true
      → IsSpent h (change (rotatable h s) (rotate now) db)
  rotate-IsSpent now s db found on = (
    rotate now s,
    subst
        (λ (t : Bool).
          find (has_hash h) (update (rotatable h s) (rotate now) db.device_sessions)
          ≡ some (if t then rotate now s else s))
        (rotatable_self s db found on)
        (find-update (has_hash h) (rotatable h s) (rotate now)
          (has_hash_same (rotate now) (rotate-Retires now)) db.device_sessions s found),
    (rotate-Retires now s).1,
  )
