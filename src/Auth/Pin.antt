-- ===== src/Auth/Pin.antt =====
-- `pinLogin` and `recordFailedPin` of auth.service.ts.
use kasirk_backend.Base.{
  ℕ, suc, ◌+◌, ◌-◌, ◌/◌, Bool, true, false, ◌&&◌, List, [], ◌∷◌, ◌++◌, Option, none, some,
  if◌then◌else◌, ◌==◌, ltb, leb, find, any, update, count_where,
}
use kasirk_backend.Base.Sort.{list_eq}
use kasirk_backend.Base.Text.{Text, Uuid, lower_case, trim}
use kasirk_backend.Common.Errors.{
  Result, ok, err, Failure, http, prisma, p2034, p2002, unauthorized, locked, service_unavailable,
  invalid_credentials, pin_locked, pin_login_retry_required, hash_columns,
}
use kasirk_backend.Database.Rows.{Db, User, DeviceSession, active}
use kasirk_backend.Database.Client.{Tx, ◌>>=◌, ◌>>◌, pure, gets, modify}
use kasirk_backend.Database.Retry.{World, Handled, again, give_up, run_attempts, run_transaction}
use kasirk_backend.Auth.Config.{AuthConfig}
use kasirk_backend.Auth.Tokens.{Crypto, TokenResponse, token_response}

pub record PinLoginDto : Type 0 where
  pub tenant_id : Uuid
  pub user_id : Uuid
  pub pin : Text
  pub device_id : Uuid
  pub device_name : Option Text

abbrev pub is_later : ℕ → Option ℕ → Bool
is_later now none = false
is_later now (some t) = ltb now t

abbrev pub tenant_active : ℕ → Db → Bool
tenant_active tenant db = any (λ t. t.id == tenant && t.is_active) db.tenants

abbrev pub has_pin : Text → Option Text → Bool
has_pin h none = false
has_pin h (some s) = list_eq s h

-- The active user with the PIN hash that was read before.
unfoldable pub holds_pin : ℕ → ℕ → Text → User → Bool
holds_pin id tenant hash u =
    u.id == id && u.tenant_id == tenant && u.is_active && has_pin hash u.pin_hash

-- `invalidPinCredentials`
abbrev pub invalid_pin : Failure
invalid_pin = http (unauthorized invalid_credentials)

-- `retry_after_seconds`: the rest of the lock in seconds, rounded up, and one at least.
unfoldable pub retry_after : ℕ → ℕ → ℕ
retry_after until now =
    let seconds = (until - now + 999) / 1000 in if leb 1 seconds then seconds else 1

-- `pinLocked`
unfoldable pub pin_locked_error : ℕ → ℕ → Failure
unfolding retry_after
pin_locked_error until now = http (locked (pin_locked (retry_after until now)))

pub record PinFailure : Type 0 where
  pub failed_attempts : ℕ
  pub locked_until : Option ℕ

-- The failed attempts before this one: none, if a lock has run out.
unfoldable pub previous_attempts : User → ℕ
previous_attempts u = elim u.locked_until [ none ↦ u.pin_failed_attempts | some _ ↦ 0 ]

unfoldable pub next_failure : AuthConfig → ℕ → User → PinFailure
unfolding previous_attempts
next_failure cfg failed_at u =
    let attempts = previous_attempts u + 1 in
    record {
      failed_attempts = attempts;
      locked_until =
          if leb cfg.pin_max_failed_attempts attempts
          then some (failed_at + cfg.pin_lock_duration_ms)
          else none;
    }

unfoldable pub store_failure : PinFailure → User → User
store_failure f u = record u {
  pin_failed_attempts = f.failed_attempts;
  locked_until = f.locked_until;
}

-- A locked user is left alone; any other is counted, and locked by the last attempt.
unfoldable pub count_failure :
    AuthConfig → ℕ → ℕ → Text → ℕ → List User → User → Tx (Option PinFailure)
unfolding holds_pin next_failure store_failure
count_failure cfg id tenant hash failed_at users u =
    if is_later failed_at u.locked_until
    then pure
        (some (record { failed_attempts = u.pin_failed_attempts; locked_until = u.locked_until }))
    else do
      modify λ db. record db {
        users =
            update (holds_pin id tenant hash) (store_failure (next_failure cfg failed_at u))
              db.users;
      }
      if count_where (holds_pin id tenant hash) users == 1
          then pure (some (next_failure cfg failed_at u))
          else pure none

abbrev pub failed_user :
    AuthConfig → ℕ → ℕ → Text → ℕ → List User → Option User → Tx (Option PinFailure)
failed_user cfg id tenant hash failed_at users none = pure none
failed_user cfg id tenant hash failed_at users (some u) =
    count_failure cfg id tenant hash failed_at users u

-- The transaction of `recordFailedPin`.
unfoldable pub record_failure : AuthConfig → ℕ → ℕ → Text → ℕ → Tx (Option PinFailure)
unfolding count_failure holds_pin
record_failure cfg id tenant hash failed_at = do
  users ← gets (λ db. db.users)
  failed_user cfg id tenant hash failed_at users (find (holds_pin id tenant hash) users)

-- The `catch` clause of `recordFailedPin`.
unfoldable pub handle_pin : Failure → Handled
handle_pin (prisma p2034) = again (http (service_unavailable pin_login_retry_required))
handle_pin e = give_up e

-- `recordFailedPin`
unfoldable pub record_failed_pin :
    AuthConfig → World → ℕ → ℕ → Text → ℕ → Db → Result (Option PinFailure) × Db
unfolding record_failure handle_pin
record_failed_pin cfg w id tenant hash failed_at =
    run_attempts handle_pin (http (service_unavailable pin_login_retry_required)) w 3 0
      (record_failure cfg id tenant hash failed_at)

-- The unique index on the hash of the refresh token refuses a second row of one hash.
unfoldable pub create_session : (ℕ → DeviceSession) → Tx (Unit {0})
create_session row db =
    let s = row db.next_id in
    if any (λ r. r.refresh_token_hash == s.refresh_token_hash) db.device_sessions
    then err (prisma (p2002 hash_columns))
    else ok
        (tt, record db { device_sessions = db.device_sessions ++ s ∷ []; next_id = suc db.next_id })

-- `dto.device_name?.trim() || null`
unfoldable pub device_name : Option Text → Option Text
unfolding trim
device_name none = none
device_name (some s) = elim (trim s) [ [] ↦ none | c ∷ cs ↦ some (c ∷ cs) ]

unfoldable pub pin_session : Crypto → AuthConfig → PinLoginDto → Text → ℕ → User → ℕ → DeviceSession
unfolding device_name
pin_session c cfg dto token now user id = record {
  id = id;
  tenant_id = user.tenant_id;
  user_id = user.id;
  device_id = lower_case dto.device_id;
  device_name = device_name dto.device_name;
  refresh_token_hash = c.hash_refresh_token token;
  status = active;
  created_at = now;
  last_used_at = now;
  expires_at = now + cfg.refresh_token_ttl_ms;
  rotated_at = none;
  revoked_at = none;
}

unfoldable pub reset_pin : User → User
reset_pin u = record u { pin_failed_attempts = 0; locked_until = none }

-- The transaction of a right PIN.
unfoldable pub accept_pin : User → Text → (ℕ → DeviceSession) → Tx Bool
unfolding holds_pin reset_pin create_session
accept_pin user hash row = do
  db ← gets (λ db. db)
  let mine = holds_pin user.id user.tenant_id hash
  if any mine db.users && tenant_active user.tenant_id db
      then (do
        modify λ d. record d { users = update mine reset_pin d.users }
        if count_where mine db.users == 1 then create_session row >> pure true else pure false)
      else pure false

-- The answers to a right and to a wrong PIN.
abbrev pub accepted : Crypto → User → Text → Result Bool × Db → Result TokenResponse × Db
accepted c user token (err e, db) = (err e, db)
accepted c user token (ok true, db) = (ok (token_response c user token), db)
accepted c user token (ok false, db) = (err invalid_pin, db)

abbrev pub refused : ℕ → Result (Option PinFailure) × Db → Result TokenResponse × Db
refused now (err e, db) = (err e, db)
refused now (ok none, db) = (err invalid_pin, db)
refused now (ok (some f), db) = elim f.locked_until [
  | none ↦ (err invalid_pin, db)
  | some until ↦ (err (pin_locked_error until now), db)
]

-- `pinLogin` once the user is found, with a PIN hash that is not empty.
unfoldable pub check_pin :
    Crypto → AuthConfig → World → PinLoginDto → Text → User → Text → Db → Result TokenResponse × Db
unfolding record_failed_pin accept_pin pin_session pin_locked_error token_response run_transaction
check_pin c cfg w dto token user hash db =
    if is_later db.clock user.locked_until
    then (err (pin_locked_error (elim user.locked_until [ none ↦ 0 | some t ↦ t ]) db.clock), db)
    else if c.compare dto.pin hash
    then accepted c user token (
        run_transaction (w.faults 0)
          (accept_pin user hash (pin_session c cfg dto token db.clock user)) (w.others 0 db))
    else refused db.clock (record_failed_pin cfg w user.id user.tenant_id hash db.clock db)

-- The user that a PIN login names.
unfoldable pub pin_user : PinLoginDto → Db → User → Bool
pin_user dto db u =
    u.id == lower_case dto.user_id
    && u.tenant_id == lower_case dto.tenant_id
    && u.is_active
    && tenant_active (lower_case dto.tenant_id) db

-- A user without a PIN, or with an empty hash, cannot log in.
abbrev pub with_pin :
    Crypto
    → AuthConfig
    → World
    → PinLoginDto
    → Text
    → User
    → Option Text
    → Db
    → Result TokenResponse × Db
with_pin c cfg w dto token user none db = (err invalid_pin, db)
with_pin c cfg w dto token user (some []) db = (err invalid_pin, db)
with_pin c cfg w dto token user (some (d ∷ ds)) db = check_pin c cfg w dto token user (d ∷ ds) db

abbrev pub with_user :
    Crypto → AuthConfig → World → PinLoginDto → Text → Option User → Db → Result TokenResponse × Db
with_user c cfg w dto token none db = (err invalid_pin, db)
with_user c cfg w dto token (some user) db = with_pin c cfg w dto token user user.pin_hash db

-- `pinLogin`
unfoldable pub pin_login :
    Crypto → AuthConfig → World → PinLoginDto → Text → Db → Result TokenResponse × Db
unfolding check_pin pin_user
pin_login c cfg w dto token db = with_user c cfg w dto token (find (pin_user dto db) db.users) db
