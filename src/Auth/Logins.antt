-- ===== src/Auth/Logins.antt =====
-- PIN logins, and refresh tokens that were used before them.
use kasirk_backend.Base.{
  ℕ, ◌≡◌, refl, sym, subst, Bool, true, false, ◌&&◌, List, [], ◌∷◌, Option, none, some, arith,
  if◌then◌else◌, ◌==◌, find, any, update, count_where,
}
use kasirk_backend.Base.Text.{Text}
use kasirk_backend.Common.Errors.{Result, ok, err}
use kasirk_backend.Database.Rows.{Db, User, DeviceSession}
use kasirk_backend.Database.Client.{gets, modify}
use kasirk_backend.Database.Retry.{World}
use kasirk_backend.Database.Keeps.{
  Keeps, OthersKeep, Keeps-bind, Keeps-pure, Keeps-gets, Keeps-modify, Keeps-if,
  Keeps-run_transaction, Keeps-run_attempts,
}
use kasirk_backend.Auth.Config.{AuthConfig}
use kasirk_backend.Auth.Tokens.{Crypto, TokenResponse}
use kasirk_backend.Auth.Pin.{
  PinLoginDto, PinFailure, create_session, holds_pin, reset_pin, store_failure, next_failure,
  count_failure, failed_user, accept_pin, record_failure, record_failed_pin, accepted, refused,
  check_pin, pin_login, pin_user, pin_session, is_later, tenant_active, with_pin, with_user,
}
use kasirk_backend.Auth.Spent.{IsSpent, create_session-Keeps}

abbrev change_users : (User → Bool) → (User → User) → Db → Db
change_users q f db = record db { users = update q f db.users }

module _ (h : ℕ) where
  accept_pin-Keeps :
      (user : User) (hash : Text) (row : ℕ → DeviceSession)
      → Keeps (IsSpent h) (accept_pin user hash row)
  unfolding accept_pin
  accept_pin-Keeps user hash row =
      let mine = holds_pin user.id user.tenant_id hash in
      Keeps-bind (IsSpent h) (gets (λ db. db)) _ (Keeps-gets (IsSpent h) (λ db. db)) λ db.
        Keeps-if (IsSpent h) (any mine db.users && tenant_active user.tenant_id db) _ _
          (Keeps-bind (IsSpent h) (modify (change_users mine reset_pin)) _
            (Keeps-modify (IsSpent h) (change_users mine reset_pin) (λ d p. p))
            (λ _.
              Keeps-if (IsSpent h) (count_where mine db.users == 1) _ _
                (Keeps-bind (IsSpent h) (create_session row) _ (create_session-Keeps h row)
                  (λ _. Keeps-pure (IsSpent h) true))
                (Keeps-pure (IsSpent h) false)))
          (Keeps-pure (IsSpent h) false)

  failed_user-Keeps :
      (cfg : AuthConfig) (id tenant : ℕ) (hash : Text) (at : ℕ) (users : List User)
      (o : Option User)
      → Keeps (IsSpent h) (failed_user cfg id tenant hash at users o)
  unfolding count_failure
  failed_user-Keeps cfg id tenant hash at users none = Keeps-pure (IsSpent h) none
  failed_user-Keeps cfg id tenant hash at users (some u) =
      let write = change_users (holds_pin id tenant hash) (store_failure (next_failure cfg at u)) in
      Keeps-if (IsSpent h) (is_later at u.locked_until) _ _ (Keeps-pure (IsSpent h) _) (
        Keeps-bind (IsSpent h) (modify write) _ (Keeps-modify (IsSpent h) write (λ d p. p)) λ _.
          Keeps-if (IsSpent h) (count_where (holds_pin id tenant hash) users == 1) _ _
            (Keeps-pure (IsSpent h) (some (next_failure cfg at u))) (Keeps-pure (IsSpent h) none))

  record_failure-Keeps :
      (cfg : AuthConfig) (id tenant : ℕ) (hash : Text) (at : ℕ)
      → Keeps (IsSpent h) (record_failure cfg id tenant hash at)
  unfolding record_failure
  record_failure-Keeps cfg id tenant hash at =
      Keeps-bind (IsSpent h) (gets (λ db. db.users)) _ (Keeps-gets (IsSpent h) (λ db. db.users))
        λ users.
          failed_user-Keeps cfg id tenant hash at users (find (holds_pin id tenant hash) users)

  accepted-state :
      (c : Crypto) (u : User) (token : Text) (r : Result Bool × Db) → (accepted c u token r).1 ≡ r.1
  accepted-state c u token (err e, db) = refl
  accepted-state c u token (ok true, db) = refl
  accepted-state c u token (ok false, db) = refl

  refused-state : (now : ℕ) (r : Result (Option PinFailure) × Db) → (refused now r).1 ≡ r.1
  refused-state now (err e, db) = refl
  refused-state now (ok none, db) = refl
  refused-state now (ok (some f), db) = ground arith

  if-IsSpent :
      (t : Bool) (x y : Result TokenResponse × Db)
      → IsSpent h x.1
      → IsSpent h y.1
      → IsSpent h (if t then x else y).1
  if-IsSpent true x y p q = p
  if-IsSpent false x y p q = q

  module _ (c : Crypto) (cfg : AuthConfig) (w : World) (others : OthersKeep (IsSpent h) w) where
    check_pin-IsSpent :
        (dto : PinLoginDto) (token : Text) (user : User) (hash : Text) (db : Db)
        → IsSpent h db
        → IsSpent h (check_pin c cfg w dto token user hash db).1
    unfolding check_pin record_failed_pin
    check_pin-IsSpent dto token user hash db p =
        if-IsSpent (is_later db.clock user.locked_until) _ _ p (
          if-IsSpent (c.compare dto.pin hash) _ _
            (subst (IsSpent h) (sym (accepted-state c user token _)) (
              Keeps-run_transaction (IsSpent h) (w.faults 0) _ (w.others 0 db)
                (accept_pin-Keeps user hash (pin_session c cfg dto token db.clock user))
                (others 0 db p)))
            (subst (IsSpent h) (sym (refused-state db.clock _)) (
              Keeps-run_attempts (IsSpent h) _ _ w 3 0 _ db others
                (record_failure-Keeps cfg user.id user.tenant_id hash db.clock) p)))

    with_pin-IsSpent :
        (dto : PinLoginDto) (token : Text) (user : User) (o : Option Text) (db : Db)
        → IsSpent h db
        → IsSpent h (with_pin c cfg w dto token user o db).1
    with_pin-IsSpent dto token user none db p = p
    with_pin-IsSpent dto token user (some []) db p = p
    with_pin-IsSpent dto token user (some (d ∷ ds)) db p =
        check_pin-IsSpent dto token user (d ∷ ds) db p

    with_user-IsSpent :
        (dto : PinLoginDto) (token : Text) (o : Option User) (db : Db)
        → IsSpent h db
        → IsSpent h (with_user c cfg w dto token o db).1
    with_user-IsSpent dto token none db p = p
    with_user-IsSpent dto token (some user) db p =
        with_pin-IsSpent dto token user user.pin_hash db p

    pub pin_login-IsSpent :
        (dto : PinLoginDto) (token : Text) (db : Db)
        → IsSpent h db
        → IsSpent h (pin_login c cfg w dto token db).1
    unfolding pin_login
    pin_login-IsSpent dto token db p =
        with_user-IsSpent dto token (find (pin_user dto db) db.users) db p
