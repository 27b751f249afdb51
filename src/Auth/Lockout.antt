-- ===== src/Auth/Lockout.antt =====
-- Wrong PINs in a row, on a database that nobody else writes.
use kasirk_backend.Base.{
  ℕ, suc, ◌+◌, ◌<◌, ◌≡◌, sym, subst, ◌∙◌, true, false, List, [], ◌∷◌, arith, ltb, All, length,
}
use kasirk_backend.Base.Text.{Text}
use kasirk_backend.Common.Errors.{err}
use kasirk_backend.Database.Rows.{Db}
use kasirk_backend.Auth.Config.{AuthConfig}
use kasirk_backend.Auth.Tokens.{Crypto}
use kasirk_backend.Auth.Pin.{
  PinLoginDto, store_failure, next_failure, previous_attempts, check_pin, pin_login, pin_user,
  pin_locked_error,
}
use kasirk_backend.Auth.Failures.{
  quiet, at, with_text, IsTrying, IsLocked, IsUser-failed, pin_login-found, wrong_pin-state,
}

lt→ltb : (a b : ℕ) → a < b → ltb a b ≡ true
lt→ltb a b h = ground arith

module _ (c : Crypto) (cfg : AuthConfig) (dto : PinLoginDto) (token : Text) (d : ℕ)
    (ds : Text) where
  abbrev hash : Text
  hash = d ∷ ds

  wrong_pin-counts :
      (k : ℕ) (p : Text) (db : Db)
      → IsTrying dto hash k db
      → c.compare p hash ≡ false
      → suc k < cfg.pin_max_failed_attempts
      → IsTrying dto hash (suc k) (pin_login c cfg quiet (with_text dto p) token db).1
  unfolding next_failure previous_attempts store_failure
  wrong_pin-counts k p db t wrong few =
      subst (IsTrying dto hash (suc k))
        (sym (wrong_pin-state c cfg dto token d ds p db t.user t.row t.unlocked wrong))
        (record {
          user = store_failure (next_failure cfg db.clock t.user) t.user;
          row =
              IsUser-failed c cfg dto token d ds (next_failure cfg db.clock t.user) db t.user t.row;
          tried = ground (arith, t.tried, t.unlocked);
          unlocked = ground (arith, t.tried, t.unlocked);
        })

  wrong_pin-locks :
      (k : ℕ) (p : Text) (db : Db)
      → IsTrying dto hash k db
      → c.compare p hash ≡ false
      → suc k ≡ cfg.pin_max_failed_attempts
      → IsLocked dto hash
          (db.clock + cfg.pin_lock_duration_ms)
          (pin_login c cfg quiet (with_text dto p) token db).1
  unfolding next_failure previous_attempts store_failure
  wrong_pin-locks k p db t wrong last =
      subst (IsLocked dto hash (db.clock + cfg.pin_lock_duration_ms))
        (sym (wrong_pin-state c cfg dto token d ds p db t.user t.row t.unlocked wrong))
        (record {
          user = store_failure (next_failure cfg db.clock t.user) t.user;
          row =
              IsUser-failed c cfg dto token d ds (next_failure cfg db.clock t.user) db t.user t.row;
          lock = ground (arith, t.tried, t.unlocked);
        })

  -- Logins one after the other, each at its time and with its PIN.
  abbrev pub tries : List (ℕ × Text) → Db → Db
  tries [] db = db
  tries ((t, p) ∷ rest) db = tries rest (pin_login c cfg quiet (with_text dto p) token (at t db)).1

  abbrev pub last_time : ℕ → List (ℕ × Text) → ℕ
  last_time t [] = t
  last_time t ((t', p) ∷ rest) = last_time t' rest

  abbrev pub AllWrong : List (ℕ × Text) → Type 0
  AllWrong = All (λ (a : ℕ × Text). c.compare a.1 hash ≡ false)

  IsTrying-at : (k t : ℕ) (db : Db) → IsTrying dto hash k db → IsTrying dto hash k (at t db)
  unfolding pin_user
  IsTrying-at k t db h = record {
    user = h.user;
    row = record { found = h.row.found; hashed = h.row.hashed; single = h.row.single };
    tried = h.tried;
    unlocked = h.unlocked;
  }

  tries-locks :
      (k t : ℕ) (p : Text) (rest : List (ℕ × Text)) (db : Db)
      → IsTrying dto hash k db
      → AllWrong ((t, p) ∷ rest)
      → k + suc (length rest) ≡ cfg.pin_max_failed_attempts
      → IsLocked dto hash (last_time t rest + cfg.pin_lock_duration_ms) (tries ((t, p) ∷ rest) db)
  tries-locks k t p [] db h (wrong, _) all =
      wrong_pin-locks k p (at t db) (IsTrying-at k t db h) wrong (omega arith)
  tries-locks k t p ((t', p') ∷ rest) db h (wrong, wrongs) all =
      tries-locks (suc k) t' p' rest _
        (wrong_pin-counts k p (at t db) (IsTrying-at k t db h) wrong (omega arith)) wrongs
        (omega arith)

  locked-refuses :
      (until t : ℕ) (p : Text) (db : Db)
      → IsLocked dto hash until db
      → t < until
      → pin_login c cfg quiet (with_text dto p) token (at t db)
        ≡ (err (pin_locked_error until t), at t db)
  unfolding check_pin pin_user
  locked-refuses until t p db h early =
      pin_login-found c cfg dto token d ds p (at t db) h.user
        (record { found = h.row.found; hashed = h.row.hashed; single = h.row.single })
      ∙ rw h.lock (rw (lt→ltb t until early))

  -- As many wrong PINs in a row as the settings allow, for a user whose row is found with a PIN,
  -- no lock and no failed attempt, lock the login: with a clock before the end of the lock that
  -- the last of them sets, every PIN, also the right one, is answered with PIN_LOCKED and the
  -- database stays as it is, when nobody else writes and the database fails nothing.
  pub wrong_pins-lock :
      (t : ℕ) (p : Text) (rest : List (ℕ × Text)) (db : Db)
      → IsTrying dto hash 0 db
      → AllWrong ((t, p) ∷ rest)
      → suc (length rest) ≡ cfg.pin_max_failed_attempts
      → (now : ℕ) (pin : Text) → now < last_time t rest + cfg.pin_lock_duration_ms
      → pin_login c cfg quiet (with_text dto pin) token (at now (tries ((t, p) ∷ rest) db)) ≡ (
        err (pin_locked_error (last_time t rest + cfg.pin_lock_duration_ms) now),
        at now (tries ((t, p) ∷ rest) db),
      )
  wrong_pins-lock t p rest db h wrong all now pin early =
      locked-refuses _ now pin (tries ((t, p) ∷ rest) db)
        (tries-locks 0 t p rest db h wrong (omega arith)) early
