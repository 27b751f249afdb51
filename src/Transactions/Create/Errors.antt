-- ===== src/Transactions/Create/Errors.antt =====
-- The errors that `createInternal` passes on.
use kasirk_backend.Base.{
  ℕ, zero, suc, ◌≡◌, refl, sym, ap, ◌∙◌, Bool, true, false, Option, none, some, arith,
  if◌then◌else◌,
}
use kasirk_backend.Base.Text.{IdText, uuid, malformed}
use kasirk_backend.Common.Errors.{
  Result, ok, err, Failure, http, prisma, other_error, p2002, p2003, p2025, p2034, other_code,
  HttpException, duplicate_request, ◌>>=◌, ◌>>◌, raise_if, bad_request, invalid_input,
}
use kasirk_backend.Database.Rows.{Db, PaymentMethod}
use kasirk_backend.Database.Client.{Tx}
use kasirk_backend.Database.Retry.{
  World, Handled, again, give_up, run_attempts, run_transaction, settle, raise_or_retry,
}
use kasirk_backend.Transactions.Dto.{
  CheckoutDto, CheckoutMode, v1, legacy_sync, PaymentDto, Checkout, valid_checkout,
  plain_to_instance,
}
use kasirk_backend.Transactions.Tender.{assert_payment_shape, assert_checkout_input}
use kasirk_backend.Transactions.Persist.{Actor}
use kasirk_backend.Transactions.Create.{
  JwtPayload, actor_context, prepare, handle_create, run_prepared, create_internal,
}

abbrev pub is_http : Failure → Bool
is_http (http _) = true
is_http _ = false

abbrev raised : Handled → Failure
raised (again e) = e
raised (give_up e) = e

-- A result whose error, if it has one, is an HTTP exception.
abbrev pub only_http : {A : Type 0} → Result A → Bool
only_http (ok _) = true
only_http (err e) = is_http e

-- Whether the next attempts, if any, end in no other error.
abbrev only_next : {A : Type 0} → Option (Db → Result A × Db) → Db → Bool
only_next none d = true
only_next (some f) d = only_http (f d).0

handle_create-http : (e : Failure) → is_http (raised (handle_create e)) ≡ true
unfolding handle_create duplicate_request
handle_create-http (http e) = refl
handle_create-http (other_error n) = refl
handle_create-http (prisma (p2002 m)) = ground arith
handle_create-http (prisma p2003) = refl
handle_create-http (prisma p2025) = refl
handle_create-http (prisma p2034) = refl
handle_create-http (prisma (other_code n)) = refl

raise-only_http :
    {A : Type 0} (hd : Handled) (next : Option (Db → Result A × Db)) (d : Db)
    → is_http (raised hd) ≡ true
    → ((f : Db → Result A × Db) → next ≡ some f → only_http (f d).0 ≡ true)
    → only_http (raise_or_retry hd next d).0 ≡ true
raise-only_http (give_up e) next d h k = h
raise-only_http (again e) none d h k = h
raise-only_http (again e) (some f) d h k = k f refl

settle-only_http :
    {A : Type 0} (handle : Failure → Handled) (next : Option (Db → Result A × Db)) (r : Result A)
    (d : Db)
    → ((e : Failure) → is_http (raised (handle e)) ≡ true)
    → ((f : Db → Result A × Db) → next ≡ some f → only_http (f d).0 ≡ true)
    → only_http (settle handle next (r, d)).0 ≡ true
settle-only_http handle next (ok a) d clean k = refl
settle-only_http handle next (err e) d clean k = raise-only_http (handle e) next d (clean e) k

-- A loop whose handler gives HTTP exceptions ends in no other error.
run_attempts-only_http :
    {A : Type 0} (handle : Failure → Handled)
    → ((e : Failure) → is_http (raised (handle e)) ≡ true)
    → (x : HttpException) (w : World) (left i : ℕ) (tx : Tx A) (db : Db)
    → only_http (run_attempts handle (http x) w left i tx db).0 ≡ true
unfolding run_attempts
run_attempts-only_http handle clean x w zero i tx db = refl
run_attempts-only_http handle clean x w (suc zero) i tx db =
    let (r, d) = run_transaction (w.faults i) tx (w.others i db) in
    settle-only_http handle none r d clean (λ f e. cc)
run_attempts-only_http {A} handle clean x w (suc (suc left)) i tx db =
    let (r, d) = run_transaction (w.faults i) tx (w.others i db) in
    settle-only_http handle (some (run_attempts handle (http x) w (suc left) (suc i) tx)) r d clean
      (λ f e.
        sym (ap (λ (o : Option (Db → Result A × Db)). only_next o d) e)
        ∙ run_attempts-only_http handle clean x w (suc left) (suc i) tx d)

bind-only_http :
    {A B : Type 0} (first : Result A) (next : A → Result B)
    → only_http first ≡ true
    → ((a : A) → only_http (next a) ≡ true)
    → only_http (first >>= next) ≡ true
bind-only_http (ok a) f h k = k a
bind-only_http (err e) f h k = h

raise_if-only_http : (b : Bool) (e : HttpException) → only_http (raise_if b e) ≡ true
raise_if-only_http true e = refl
raise_if-only_http false e = refl

shape-only_http :
    (m : PaymentMethod) (a r : Option ℕ) (c : Bool)
    → only_http (
        assert_payment_shape
          (record { method = m; amount = a; amount_received = r; has_change_amount = c }))
      ≡ true
unfolding assert_payment_shape
shape-only_http m a r c = ground arith

payment-only_http : (p : PaymentDto) → only_http (assert_payment_shape p) ≡ true
payment-only_http p = shape-only_http p.method p.amount p.amount_received p.has_change_amount

input-only_http :
    (d : CheckoutDto) (mode : CheckoutMode) → only_http (assert_checkout_input d mode) ≡ true
unfolding assert_checkout_input plain_to_instance
input-only_http d legacy_sync = refl
input-only_http d v1 = go (valid_checkout d)
  where
    go :
        (b : Bool)
        → only_http (
            if b
            then ok (plain_to_instance d)
            else assert_payment_shape d.payment >> err (http (bad_request invalid_input)))
          ≡ true
    go true = refl
    go false =
        bind-only_http (assert_payment_shape d.payment) _ (payment-only_http d.payment) (λ _. refl)

context-only_http :
    (sub tenant : IdText)
    → only_http (actor_context (record { sub = sub; tenant_id = tenant })) ≡ true
unfolding actor_context
context-only_http (uuid s) (uuid t) = refl
context-only_http (uuid s) (malformed t) = refl
context-only_http (malformed s) t = refl

prepare-only_http :
    (user : JwtPayload) (d : CheckoutDto) (mode : CheckoutMode)
    → only_http (prepare user d mode) ≡ true
unfolding prepare
prepare-only_http user d mode =
    bind-only_http (actor_context user) _ (context-only_http user.sub user.tenant_id) λ actor.
      bind-only_http (assert_checkout_input d mode) _ (input-only_http d mode) λ dto.
        bind-only_http (assert_payment_shape dto.payment) _ (payment-only_http dto.payment)
          λ _. refl

-- Whatever the database does, a checkout request ends in a response or in an HTTP exception, never
-- in an error of the database client.
pub create_internal-only_http :
    (w : World) (user : JwtPayload) (input : CheckoutDto) (mode : CheckoutMode) (db : Db)
    → only_http (create_internal w user input mode db).0 ≡ true
unfolding create_internal
create_internal-only_http w user input mode db =
    go (prepare user input mode) (prepare-only_http user input mode)
  where
    go :
        (p : Result (Actor × Checkout))
        → only_http p ≡ true
        → only_http (run_prepared w mode p db).0 ≡ true
    go (err e) h = h
    go (ok (actor, dto)) h = run_attempts-only_http handle_create handle_create-http _ w 3 0 _ db
