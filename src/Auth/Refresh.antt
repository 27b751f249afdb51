-- ===== src/Auth/Refresh.antt =====
-- `refresh` and `logout` of auth.service.ts: the rotation of refresh tokens.
use kasirk_backend.Base.{
  ℕ, ◌+◌, Bool, ◌&&◌, Option, none, some, if◌then◌else◌, ◌==◌, ltb, find, update, count_where,
}
use kasirk_backend.Base.Text.{Text}
use kasirk_backend.Common.Errors.{Result, ok, err, http, unauthorized, invalid_refresh_token}
use kasirk_backend.Database.Rows.{Db, User, DeviceSession, active, revoked, is_active_device}
use kasirk_backend.Database.Client.{Tx, ◌>>=◌, ◌>>◌, pure, gets, modify}
use kasirk_backend.Database.Retry.{World, run_transaction}
use kasirk_backend.Auth.Config.{AuthConfig}
use kasirk_backend.Auth.Tokens.{Crypto, TokenResponse, token_response}
use kasirk_backend.Auth.Pin.{create_session, tenant_active}

-- `where: { refresh_token_hash }`
unfoldable pub has_hash : ℕ → DeviceSession → Bool
has_hash h s = s.refresh_token_hash == h

-- The ACTIVE row of a session that was read.
unfoldable pub same_active : ℕ → DeviceSession → DeviceSession → Bool
same_active h s r =
    r.id == s.id
    && r.tenant_id == s.tenant_id
    && r.refresh_token_hash == h
    && is_active_device r.status

unfoldable pub revoke : ℕ → DeviceSession → DeviceSession
revoke now s = record s { status = revoked; revoked_at = some now; last_used_at = now }

unfoldable pub rotate : ℕ → DeviceSession → DeviceSession
rotate now s = record s {
  status = revoked;
  revoked_at = some now;
  rotated_at = some now;
  last_used_at = now;
}

-- The user of a session. A foreign key keeps it; a session without one is read as unusable.
unfoldable pub session_user : Db → DeviceSession → Option User
session_user db s = find (λ u. u.id == s.user_id && u.tenant_id == s.tenant_id) db.users

unfoldable pub usable : ℕ → Db → DeviceSession → User → Bool
usable now db s u =
    is_active_device s.status && ltb now s.expires_at && u.is_active && tenant_active s.tenant_id db

unfoldable pub next_session : AuthConfig → ℕ → ℕ → DeviceSession → ℕ → DeviceSession
next_session cfg now next_hash s id = record {
  id = id;
  tenant_id = s.tenant_id;
  user_id = s.user_id;
  device_id = s.device_id;
  device_name = s.device_name;
  refresh_token_hash = next_hash;
  status = active;
  created_at = now;
  last_used_at = now;
  expires_at = now + cfg.refresh_token_ttl_ms;
  rotated_at = none;
  revoked_at = none;
}

-- A session that cannot be used is revoked, if it was ACTIVE.
unfoldable pub reject_session : ℕ → ℕ → DeviceSession → Tx (Option User)
unfolding same_active revoke
reject_session h now s =
    if is_active_device s.status
    then modify (λ d. record d {
      device_sessions = update (same_active h s) (revoke now) d.device_sessions;
    })
      >> pure none
    else pure none

-- `updateMany` also names the user.
unfoldable pub rotatable : ℕ → DeviceSession → DeviceSession → Bool
unfolding same_active
rotatable h s r = same_active h s r && r.user_id == s.user_id

unfoldable pub rotate_session : AuthConfig → ℕ → ℕ → ℕ → DeviceSession → User → Tx (Option User)
unfolding rotatable rotate next_session create_session
rotate_session cfg h next_hash now s user = do
  rows ← gets (λ db. db.device_sessions)
  modify λ d. record d { device_sessions = update (rotatable h s) (rotate now) d.device_sessions }
  if count_where (rotatable h s) rows == 1
      then create_session (next_session cfg now next_hash s) >> pure (some user)
      else pure none

-- What `refresh` does with the session that it found.
unfoldable pub use_session :
    AuthConfig → ℕ → ℕ → ℕ → DeviceSession → Option User → Db → Tx (Option User)
unfolding reject_session rotate_session usable
use_session cfg h next_hash now s none db = reject_session h now s
use_session cfg h next_hash now s (some user) db =
    if usable now db s user
    then rotate_session cfg h next_hash now s user
    else reject_session h now s

abbrev pub found_session : AuthConfig → ℕ → ℕ → ℕ → Db → Option DeviceSession → Tx (Option User)
found_session cfg h next_hash now db none = pure none
found_session cfg h next_hash now db (some s) =
    use_session cfg h next_hash now s (session_user db s) db

-- The transaction of `refresh`.
unfoldable pub refresh_session : AuthConfig → ℕ → ℕ → ℕ → Tx (Option User)
unfolding has_hash
refresh_session cfg h next_hash now = do
  db ← gets (λ db. db)
  found_session cfg h next_hash now db (find (has_hash h) db.device_sessions)

abbrev pub refreshed : Crypto → Text → Result (Option User) × Db → Result TokenResponse × Db
refreshed c token (err e, db) = (err e, db)
refreshed c token (ok none, db) = (err (http (unauthorized invalid_refresh_token)), db)
refreshed c token (ok (some user), db) = (ok (token_response c user token), db)

-- `refresh`, with the next token.
unfoldable pub refresh : Crypto → AuthConfig → World → Text → Text → Db → Result TokenResponse × Db
unfolding refresh_session token_response run_transaction
refresh c cfg w refresh_token next_token db = refreshed c next_token (
    run_transaction (w.faults 0)
      (refresh_session cfg (c.hash_refresh_token refresh_token) (c.hash_refresh_token next_token)
        db.clock)
      (w.others 0 db))

unfoldable pub end_session : ℕ → DeviceSession → DeviceSession
end_session now s = record s { status = revoked; revoked_at = some now }

-- `logout`; the other clients write between its read and its write.
unfoldable pub logout : Crypto → World → Text → Db → Db
unfolding has_hash same_active end_session
logout c w refresh_token db =
    let h = c.hash_refresh_token refresh_token in
    elim (find (has_hash h) db.device_sessions) [
      | none ↦ db
      | some s ↦
          let db' = w.others 0 db in
          record db' {
            device_sessions = update (same_active h s) (end_session db'.clock) db'.device_sessions;
          }
    ]
