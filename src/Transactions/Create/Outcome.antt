-- ===== src/Transactions/Create/Outcome.antt =====
-- The outcomes of `createInternal`.
use kasirk_backend.Base.{
  ℕ, ◌≤◌, ◌≡◌, refl, sym, ap, ap₂, subst, subst₂, ◌∙◌, Bool, true, false, ◌&&◌, List, [], ◌∷◌, map,
  Option, none, some, arith, ◌⊎◌, inl, inr, if◌then◌else◌,
}
use kasirk_backend.Base.Text.{Text, Uuid, IdText, uuid, malformed, lower_case, trim}
use kasirk_backend.Base.Trim.{trim-trim}
use kasirk_backend.Common.Errors.{
  Result, ok, err, Failure, http, bad_request, invalid_input, ok-inj, >>=-eq-ok, ◌>>◌,
}
use kasirk_backend.Database.Rows.{Db}
use kasirk_backend.Database.Retry.{World}
use kasirk_backend.Database.Retry.Attempts.{others_until, IsOutcome, run_attempts-IsOutcome}
use kasirk_backend.Transactions.Dto.{
  ItemDto, CheckoutDto, Line, Checkout, CheckoutMode, v1, legacy_sync, is_v1, checkout_dto,
  valid_checkout, trim_note, plain_to_instance, normalize_item, normalize_checkout_dto, get_or,
  map_option,
}
use kasirk_backend.Transactions.Tender.{assert_payment_shape, assert_checkout_input}
use kasirk_backend.Transactions.Tender.Shape.{is_ok}
use kasirk_backend.Transactions.Persist.{Actor}
use kasirk_backend.Transactions.Response.{Response}
use kasirk_backend.Transactions.Core.{execute_transaction_core}
use kasirk_backend.Transactions.Create.{
  JwtPayload, actor_context, create_internal, run_prepared, prepare, handle_create,
}

-- What a request has to pass before it reaches the database.
abbrev pub is_uuid : IdText → Bool
is_uuid (uuid _) = true
is_uuid (malformed _) = false

abbrev pub is_admissible : JwtPayload → CheckoutDto → CheckoutMode → Bool
is_admissible user input mode =
    is_uuid user.sub
    && is_uuid user.tenant_id
    && (if is_v1 mode then valid_checkout input else true)
    && is_ok (assert_payment_shape input.payment)

-- The line of the sale that an item of the request asks for.
abbrev pub line_of : ItemDto → Line
line_of i = record {
  product_id = lower_case i.product_id;
  quantity = i.quantity;
  modifier_option_ids = map lower_case (get_or i.modifier_option_ids []);
  note = map_option trim i.note;
}

-- The actor is the user of the token, and the sale is the one that the request asks for.
pub record IsRequest (user : JwtPayload) (input : CheckoutDto) (mode : CheckoutMode) (actor : Actor)
    (dto : Checkout) : Type 0 where
  pub sub : (u : Uuid) × (user.sub ≡ uuid u) × (actor.sub ≡ lower_case u)
  pub tenant : (u : Uuid) × (user.tenant_id ≡ uuid u) × (actor.tenant_id ≡ lower_case u)
  pub client : dto.client_transaction_id ≡ lower_case input.client_transaction_id
  pub outlet : dto.outlet_id ≡ lower_case input.outlet_id
  pub session :
      dto.cashier_session_id
      ≡ (if is_v1 mode then map_option lower_case input.cashier_session_id else none)
  pub customer : dto.customer_id ≡ map_option lower_case input.customer_id
  pub lines : dto.lines ≡ map line_of input.items
  pub discount : dto.discount ≡ get_or input.discount 0
  pub payment : dto.payment ≡ input.payment

-- A request that is refused before it reaches the database.
pub record IsRefused (user : JwtPayload) (input : CheckoutDto) (mode : CheckoutMode)
    (r : Result Response) (db db' : Db) : Type 0 where
  pub inadmissible : is_admissible user input mode ≡ false
  pub error : Failure
  pub refused : r ≡ err error
  pub unchanged : db' ≡ db

-- An admissible request that ran, with its last attempt.
pub record IsRun (w : World) (user : JwtPayload) (input : CheckoutDto) (mode : CheckoutMode)
    (r : Result Response) (db db' : Db) : Type 0 where
  pub actor : Actor
  pub dto : Checkout
  pub request : IsRequest user input mode actor dto
  pub attempt : ℕ
  pub within : attempt ≤ 2
  pub outcome :
      IsOutcome w attempt
        (execute_transaction_core actor (checkout_dto dto) mode)
        (others_until w 0 attempt db)
        r
        db'

actor_context-named :
    (sub tenant : IdText) (actor : Actor)
    → actor_context (record { sub = sub; tenant_id = tenant }) ≡ ok actor
    → ((u : Uuid) × (sub ≡ uuid u) × (actor.sub ≡ lower_case u))
      × ((u : Uuid) × (tenant ≡ uuid u) × (actor.tenant_id ≡ lower_case u))
unfolding actor_context
actor_context-named (uuid s) (uuid t) actor h =
    let same = ok-inj h in
    (
      (s, refl, sym (ap (λ (a : Actor). a.sub) same)),
      (t, refl, sym (ap (λ (a : Actor). a.tenant_id) same)),
    )
actor_context-named (uuid s) (malformed x) actor h = cc
actor_context-named (malformed x) tenant actor h = cc

assert_checkout_input-same :
    (d d' : CheckoutDto) (mode : CheckoutMode)
    → assert_checkout_input d mode ≡ ok d'
    → plain_to_instance d ≡ d'
unfolding assert_checkout_input
assert_checkout_input-same d d' legacy_sync h = ok-inj h
assert_checkout_input-same d d' v1 h = go (valid_checkout d) h
  where
    go :
        (b : Bool)
        → (if b
            then ok (plain_to_instance d)
            else assert_payment_shape d.payment >> err (http (bad_request invalid_input)))
          ≡ ok d'
        → plain_to_instance d ≡ d'
    go true k = ok-inj k
    go false k = let (_, _, e) = >>=-eq-ok (assert_payment_shape d.payment) _ k in cc

note_twice : (o : Option Text) → map_option trim (map_option trim o) ≡ map_option trim o
note_twice none = refl
note_twice (some s) = ap (λ (x : Text). some x) (trim-trim s)

lines_of : (is : List ItemDto) → map normalize_item (map trim_note is) ≡ map line_of is
unfolding normalize_item trim_note
lines_of [] = refl
lines_of (i ∷ is) =
    ap₂ ◌∷◌ (ap (λ (n : Option Text). record (line_of i) { note = n }) (note_twice i.note))
      (lines_of is)

normalized-IsRequest :
    (user : JwtPayload) (input : CheckoutDto) (mode : CheckoutMode) (actor : Actor)
    → actor_context user ≡ ok actor
    → IsRequest user input mode actor (normalize_checkout_dto (plain_to_instance input) mode)
unfolding normalize_checkout_dto plain_to_instance
normalized-IsRequest user input mode actor named =
    let (sub, tenant) = actor_context-named user.sub user.tenant_id actor named in
    record {
      sub = sub;
      tenant = tenant;
      client = refl;
      outlet = refl;
      session = refl;
      customer = refl;
      lines = lines_of input.items;
      discount = refl;
      payment = refl;
    }

prepare-IsRequest :
    (user : JwtPayload) (input : CheckoutDto) (mode : CheckoutMode) (actor : Actor) (dto : Checkout)
    → prepare user input mode ≡ ok (actor, dto)
    → IsRequest user input mode actor dto
unfolding prepare
prepare-IsRequest user input mode actor dto h =
    let (a, named, h1) = >>=-eq-ok (actor_context user) _ h in
    let (d, valid, h2) = >>=-eq-ok (assert_checkout_input input mode) _ h1 in
    let (_, _, h3) = >>=-eq-ok (assert_payment_shape d.payment) _ h2 in
    let (same_actor, same_dto) = pair-eq (ok-inj h3) in
    subst₂ (IsRequest user input mode) same_actor
      (ap (λ x. normalize_checkout_dto x mode) (assert_checkout_input-same input d mode valid)
        ∙ same_dto)
      (normalized-IsRequest user input mode a named)
  where
    pair-eq :
        {a b : Actor} {x y : Checkout}
        → ◌≡◌ {A = Actor × Checkout} (a, x) (b, y)
        → (a ≡ b) × (x ≡ y)
    pair-eq e = (ap (λ q. q.0) e, ap (λ q. q.1) e)

-- A request that is not prepared is not admissible.
prepare-refused :
    (sub tenant : IdText) (input : CheckoutDto) (mode : CheckoutMode) (e : Failure)
    → prepare (record { sub = sub; tenant_id = tenant }) input mode ≡ err e
    → is_admissible (record { sub = sub; tenant_id = tenant }) input mode ≡ false
unfolding prepare actor_context assert_checkout_input plain_to_instance
prepare-refused (malformed x) tenant input mode e h = refl
prepare-refused (uuid s) (malformed x) input mode e h = refl
prepare-refused (uuid s) (uuid t) input v1 e h = ground arith
prepare-refused (uuid s) (uuid t) input legacy_sync e h = ground arith

-- A checkout request is refused and writes nothing, which happens only if the ids of its user, its
-- input or the shape of its payment are not admissible; or the sale that it asks for, by the user
-- of the token, runs at most three times: it is committed once, by an attempt that the database
-- did not fail and on the database as the other clients left it, or an error is raised and nothing
-- of the sale remains.
pub create_internal-outcome :
    (w : World) (user : JwtPayload) (input : CheckoutDto) (mode : CheckoutMode) (db : Db)
    (r : Result Response) (db' : Db)
    → create_internal w user input mode db ≡ (r, db')
    → IsRefused user input mode r db db' ⊎ IsRun w user input mode r db db'
unfolding create_internal
create_internal-outcome w user input mode db r db' h = go (prepare user input mode) refl h
  where
    go :
        (p : Result (Actor × Checkout))
        → prepare user input mode ≡ p
        → run_prepared w mode p db ≡ (r, db')
        → IsRefused user input mode r db db' ⊎ IsRun w user input mode r db db'
    go (err e) known k = inl (record {
      inadmissible = prepare-refused user.sub user.tenant_id input mode e known;
      error = e;
      refused = sym (ap (λ q. q.0) k);
      unchanged = sym (ap (λ q. q.1) k);
    })
    go (ok (actor, dto)) known k =
        let (n, few, o) = run_attempts-IsOutcome handle_create _ w 2 0 _ db r db' k in
        inr (record {
          actor = actor;
          dto = dto;
          request = prepare-IsRequest user input mode actor dto known;
          attempt = n;
          within = few;
          outcome =
              subst
                (λ j.
                  IsOutcome w j (execute_transaction_core actor (checkout_dto dto) mode)
                    (others_until w 0 n db) r db')
                (omega arith) o;
        })
