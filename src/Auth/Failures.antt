-- ===== src/Auth/Failures.antt =====
-- One wrong PIN, on a database that nobody else writes.
use kasirk_backend.Base.{
  ℕ, ◌≡◌, refl, ap, subst, ◌∙◌, Bool, true, false, ◌∷◌, Option, none, some, arith, if◌then◌else◌,
  find, find-true, update, count_where,
}
use kasirk_backend.Base.Updates.{find-only, find-update, count_where-update}
use kasirk_backend.Base.Sort.{list_eq_refl}
use kasirk_backend.Base.Text.{Text}
use kasirk_backend.Common.Errors.{
  Result, ok, err, http, service_unavailable, pin_login_retry_required,
}
use kasirk_backend.Database.Rows.{Db, User}
use kasirk_backend.Database.Retry.{World, run_transaction, run_attempts, settle, finish}
use kasirk_backend.Auth.Config.{AuthConfig}
use kasirk_backend.Auth.Tokens.{Crypto}
use kasirk_backend.Auth.Pin.{
  PinLoginDto, PinFailure, holds_pin, store_failure, next_failure, count_failure, failed_user,
  record_failure, record_failed_pin, refused, check_pin, pin_login, pin_user, with_pin, with_user,
  handle_pin, is_later,
}

if_false : {A : Type 0} (t : Bool) (x y : A) → t ≡ false → (if t then x else y) ≡ y
if_false true x y h = cc
if_false false x y h = refl

-- Nobody else writes, and the database fails nothing.
abbrev pub quiet : World
quiet = record { others = λ i db. db; faults = λ i. none }

-- The database at a time.
abbrev pub at : ℕ → Db → Db
at t db = record db { clock = t }

abbrev pub with_users : (User → Bool) → (User → User) → Db → Db
with_users q f db = record db { users = update q f db.users }

abbrev pub with_text : PinLoginDto → Text → PinLoginDto
with_text dto p = record dto { pin = p }

-- The user of the login, with the hash of the PIN and the row's count and lock.
pub record IsUser (dto : PinLoginDto) (hash : Text) (db : Db) (user : User) : Type 0 where
  pub found : find (pin_user dto db) db.users ≡ some user
  pub hashed : user.pin_hash ≡ some hash
  pub single : count_where (holds_pin user.id user.tenant_id hash) db.users ≡ 1

pub record IsTrying (dto : PinLoginDto) (hash : Text) (k : ℕ) (db : Db) : Type 0 where
  pub user : User
  pub row : IsUser dto hash db user
  pub tried : user.pin_failed_attempts ≡ k
  pub unlocked : user.locked_until ≡ none

pub record IsLocked (dto : PinLoginDto) (hash : Text) (until : ℕ) (db : Db) : Type 0 where
  pub user : User
  pub row : IsUser dto hash db user
  pub lock : user.locked_until ≡ some until

module _ (c : Crypto) (cfg : AuthConfig) (dto : PinLoginDto) (token : Text) (d : ℕ)
    (ds : Text) where
  abbrev hash : Text
  hash = d ∷ ds

  holds_pin-user :
      (db : Db) (user : User)
      → IsUser dto hash db user
      → holds_pin user.id user.tenant_id hash user ≡ true
  unfolding holds_pin pin_user
  holds_pin-user db user r =
      ground (arith, find-true (pin_user dto db) db.users user r.found, r.hashed, list_eq_refl hash)

  count_failure-lem :
      (db : Db) (user : User) (now : ℕ)
      → count_where (holds_pin user.id user.tenant_id hash) db.users ≡ 1
      → user.locked_until ≡ none
      → count_failure cfg user.id user.tenant_id hash now db.users user db
        ≡ ok (
          some (next_failure cfg now user),
          with_users
              (holds_pin user.id user.tenant_id hash)
              (store_failure (next_failure cfg now user))
              db,
        )
  unfolding count_failure
  count_failure-lem db user now one free = rw (free, one)

  -- What one wrong PIN writes.
  record_failure-lem :
      (db : Db) (user : User) (now : ℕ)
      → IsUser dto hash db user
      → user.locked_until ≡ none
      → record_failure cfg user.id user.tenant_id hash now db
        ≡ ok (
          some (next_failure cfg now user),
          with_users
              (holds_pin user.id user.tenant_id hash)
              (store_failure (next_failure cfg now user))
              db,
        )
  unfolding record_failure
  record_failure-lem db user now r free =
      ap (λ o. failed_user cfg user.id user.tenant_id hash now db.users o db)
        (find-only (holds_pin user.id user.tenant_id hash) (pin_user dto db) db.users user r.single
          r.found (holds_pin-user db user r))
      ∙ count_failure-lem db user now r.single free

  record_failed_pin-lem :
      (db : Db) (user : User) (now : ℕ)
      → IsUser dto hash db user
      → user.locked_until ≡ none
      → record_failed_pin cfg quiet user.id user.tenant_id hash now db ≡ (
        ok (some (next_failure cfg now user)),
        with_users
            (holds_pin user.id user.tenant_id hash)
            (store_failure (next_failure cfg now user))
            db,
      )
  unfolding record_failed_pin run_attempts run_transaction
  record_failed_pin-lem db user now r free =
      ap
        (λ (q : Result (Option PinFailure × Db)).
          settle handle_pin
            (some (
              run_attempts handle_pin (http (service_unavailable pin_login_retry_required)) quiet 2
                1 (record_failure cfg user.id user.tenant_id hash now)))
            (finish q db))
        (record_failure-lem db user now r free)

  check_wrong :
      (p : Text) (db : Db) (user : User)
      → IsUser dto hash db user
      → user.locked_until ≡ none
      → c.compare p hash ≡ false
      → check_pin c cfg quiet (with_text dto p) token user hash db
        ≡ refused db.clock (
          ok (some (next_failure cfg db.clock user)),
          with_users
              (holds_pin user.id user.tenant_id hash)
              (store_failure (next_failure cfg db.clock user))
              db,
        )
  unfolding check_pin
  check_wrong p db user r free wrong =
      if_false (is_later db.clock user.locked_until) _ _ (ap (is_later db.clock) free)
      ∙ if_false (c.compare p hash) _ _ wrong
      ∙ ap (refused db.clock) (record_failed_pin-lem db user db.clock r free)

  -- A login of a user that was found, with its hash.
  pub pin_login-found :
      (p : Text) (db : Db) (user : User)
      → IsUser dto hash db user
      → pin_login c cfg quiet (with_text dto p) token db
        ≡ check_pin c cfg quiet (with_text dto p) token user hash db
  unfolding pin_login pin_user
  pin_login-found p db user r =
      ap (λ o. with_user c cfg quiet (with_text dto p) token o db) r.found
      ∙ ap (λ o. with_pin c cfg quiet (with_text dto p) token user o db) r.hashed

  -- The row after a wrong PIN is still the user's.
  pub IsUser-failed :
      (f : PinFailure) (db : Db) (user : User)
      → IsUser dto hash db user
      → IsUser dto hash
          (with_users (holds_pin user.id user.tenant_id hash) (store_failure f) db)
          (store_failure f user)
  unfolding pin_user holds_pin store_failure
  IsUser-failed f db user r = record {
    found =
        subst
          (λ (t : Bool).
            find (pin_user dto db)
              (update (holds_pin user.id user.tenant_id hash) (store_failure f) db.users)
            ≡ some (if t then store_failure f user else user))
          (holds_pin-user db user r)
          (find-update (pin_user dto db) (holds_pin user.id user.tenant_id hash) (store_failure f)
            (λ x. refl) db.users user r.found);
    hashed = r.hashed;
    single =
        count_where-update (holds_pin user.id user.tenant_id hash)
          (holds_pin user.id user.tenant_id hash) (store_failure f) (λ x. refl) db.users
        ∙ r.single;
  }

  refused-state : (now : ℕ) (r : Result (Option PinFailure) × Db) → (refused now r).1 ≡ r.1
  refused-state now (err e, db) = refl
  refused-state now (ok none, db) = refl
  refused-state now (ok (some f), db) = ground arith

  pub wrong_pin-state :
      (p : Text) (db : Db) (user : User)
      → IsUser dto hash db user
      → user.locked_until ≡ none
      → c.compare p hash ≡ false
      → (pin_login c cfg quiet (with_text dto p) token db).1
        ≡ with_users
            (holds_pin user.id user.tenant_id hash)
            (store_failure (next_failure cfg db.clock user))
            db
  wrong_pin-state p db user r free wrong =
      ap (λ q. q.1) (pin_login-found p db user r ∙ check_wrong p db user r free wrong)
      ∙ refused-state db.clock (
        ok (some (next_failure cfg db.clock user)),
        with_users (holds_pin user.id user.tenant_id hash)
            (store_failure (next_failure cfg db.clock user)) db,
      )
