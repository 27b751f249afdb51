-- ===== src/Common/Errors.antt =====
-- The exceptions that a service raises (HTTP exceptions with their error codes), and those that
-- the database client raises (Prisma's known request errors).
use kasirk_backend.Base.{
  ℕ, ◌≡◌, refl, Bool, true, false, ◌&&◌, ◌||◌, List, [], ◌∷◌, Option, none, some, length, ◌==◌,
}

-- The `error_code` of a response; where the source gives only a message, a constructor for it.
pub data ErrorCode : Type 0 where
  invalid_user_context user_or_tenant_inactive tenant_inactive : ErrorCode
  role_not_allowed outlet_access_denied discount_not_allowed : ErrorCode
  invalid_input invalid_id : ErrorCode
  payment_field_not_allowed cash_amount_received_required cash_underpayment : ErrorCode
  idempotency_payload_mismatch invalid_cashier_session : ErrorCode
  session_outlet_mismatch session_user_mismatch shift_outlet_mismatch : ErrorCode
  receipt_field_required : ℕ → ErrorCode
  outlet_not_found customer_not_found products_not_found product_not_found : ErrorCode
  modifier_option_not_found modifier_group_not_assigned : ErrorCode
  modifier_snapshot_invariant_violation : ErrorCode
  required_single_modifier_violation optional_single_modifier_violation : ErrorCode
  required_multiple_not_supported required_single_modifier_missing : ErrorCode
  discount_exceeds_subtotal invalid_amount total_not_positive : ErrorCode
  insufficient_stock : ℕ → ErrorCode
  transaction_retry_required transaction_resource_conflict unable_to_create : ErrorCode
  held_order_not_found held_order_not_open held_order_version_conflict : ErrorCode
  held_order_resource_conflict held_order_catalog_conflict : ErrorCode
  held_order_total_out_of_range invalid_held_order_input : ErrorCode
  held_order_converted_no_link held_order_link_mismatch : ErrorCode
  held_order_conversion_failed : ErrorCode
  shift_not_found shift_access_denied shift_already_closed shift_already_open : ErrorCode
  open_held_orders_exist : ℕ → ErrorCode
  shift_retry_required shift_value_out_of_range unable_to_update_shift : ErrorCode
  open_shift_not_found unable_to_read_shift : ErrorCode
  stock_tracking_disabled : ℕ → ErrorCode
  category_not_found category_name_already_exists category_in_use : ErrorCode
  modifier_group_not_found modifier_group_name_exists : ErrorCode
  modifier_option_name_exists modifier_group_already_assigned : ErrorCode
  modifier_group_assignment_not_found invalid_modifier_selection_type : ErrorCode
  duplicate_modifier_group_assignment : ErrorCode
  sku_already_exists product_field_required : ErrorCode
  cannot_be_blank : ℕ → ErrorCode
  customer_field_required invalid_customer_id customer_phone_exists : ErrorCode
  customer_has_transactions customer_value_out_of_range : ErrorCode
  wrong_password store_not_found current_user_unavailable : ErrorCode
  invalid_credentials pin_login_retry_required invalid_refresh_token : ErrorCode
  pin_locked : ℕ → ErrorCode
  user_not_found stock_not_found adjustment_insufficient_stock : ErrorCode

pub data HttpException : Type 0 where
  bad_request unauthorized forbidden not_found : ErrorCode → HttpException
  conflict locked service_unavailable internal_error : ErrorCode → HttpException

-- The columns of a violated unique constraint.
pub data Column : Type 0 where
  tenant_id client_transaction_id : Column
  other_column : ℕ → Column

-- What `meta.target`, or the driver adapter's constraint, says of a unique violation.
pub data Target : Type 0 where
  client_id_index : Target
  other_index : ℕ → Target
  columns : List Column → Target

-- `error.meta`: the target, and the driver adapter's constraint index and fields.
pub record UniqueMeta : Type 0 where
  pub target : Option Target
  pub index : Option Target
  pub fields : Option Target

-- A violation of another unique constraint, the one of the number `n`.
abbrev pub other_unique : ℕ → UniqueMeta
other_unique n = record { target = some (other_index n); index = none; fields = none }

abbrev pub hash_columns : UniqueMeta
hash_columns = other_unique 0

pub data PrismaError : Type 0 where
  p2002 : UniqueMeta → PrismaError
  p2003 p2025 p2034 : PrismaError
  other_code : ℕ → PrismaError

pub data Failure : Type 0 where
  http : HttpException → Failure
  prisma : PrismaError → Failure
  other_error : ℕ → Failure

pub data Result {ℓ} (T : Type ℓ) : Type ℓ where
  err : Failure → Result T
  ok : T → Result T

infixl 5 ◌>>=◌ ◌>>◌
abbrev pub ◌>>=◌ {ℓ κ} : {A : Type ℓ} {B : Type κ} → Result A → (A → Result B) → Result B
ok a >>= f = f a
err e >>= f = err e

abbrev pub ◌>>◌ {ℓ κ} : {A : Type ℓ} {B : Type κ} → Result A → Result B → Result B
m >> k = m >>= λ _. k

-- `if (test) throw error`
abbrev pub raise_if : Bool → HttpException → Result (Unit {0})
raise_if true e = err (http e)
raise_if false e = ok tt

abbrev pub or_raise {ℓ} : {A : Type ℓ} → Option A → HttpException → Result A
or_raise none e = err (http e)
or_raise (some a) e = ok a

abbrev pub or_else {ℓ} : {A : Type ℓ} → Option A → Failure → Result A
or_else none e = err e
or_else (some a) e = ok a

pub or_else-eq-ok {ℓ κ} :
    {A : Type ℓ} {B : Type κ} (o : Option A) (e : Failure) (f : A → Result B) {b : B}
    → (or_else o e >>= f) ≡ ok b
    → (a : A) × (o ≡ some a) × (f a ≡ ok b)
or_else-eq-ok none e f h = cc
or_else-eq-ok (some a) e f h = (a, refl, h)

pub ok-inj {ℓ} : {A : Type ℓ} {a b : A} → ◌≡◌ {A = Result A} (ok a) (ok b) → a ≡ b
ok-inj h = cc

pub ok-pair {ℓ κ} :
    {A : Type ℓ} {B : Type κ} {a a' : A} {b b' : B}
    → ◌≡◌ {A = Result (A × B)} (ok (a, b)) (ok (a', b'))
    → (a ≡ a') × (b ≡ b')
ok-pair h = (cc, cc)

-- Inversion of a bind that succeeds.
pub >>=-eq-ok {ℓ κ} :
    {X : Type ℓ} {Y : Type κ} (action : Result X) (rest : X → Result Y) {y : Y}
    → (action >>= rest) ≡ ok y
    → (x : X) × (action ≡ ok x) × (rest x ≡ ok y)
>>=-eq-ok (err failure) rest h = cc
>>=-eq-ok (ok x) rest h = (x, refl, h)

pub raise_if-eq-ok {ℓ} :
    {B : Type ℓ} (t : Bool) (e : HttpException) (k : Result B) {b : B}
    → (raise_if t e >> k) ≡ ok b
    → (t ≡ false) × (k ≡ ok b)
raise_if-eq-ok true e k h = cc
raise_if-eq-ok false e k h = (refl, h)

pub or_raise-eq-ok {ℓ κ} :
    {A : Type ℓ} {B : Type κ} (o : Option A) (e : HttpException) (f : A → Result B) {b : B}
    → (or_raise o e >>= f) ≡ ok b
    → (a : A) × (o ≡ some a) × (f a ≡ ok b)
or_raise-eq-ok none e f h = cc
or_raise-eq-ok (some a) e f h = (a, refl, h)

is_tenant_id : Column → Bool
is_tenant_id tenant_id = true
is_tenant_id _ = false

is_client_transaction_id : Column → Bool
is_client_transaction_id client_transaction_id = true
is_client_transaction_id _ = false

any_column : (Column → Bool) → List Column → Bool
any_column p [] = false
any_column p (c ∷ cs) = p c || any_column p cs

-- `a ?? b`
abbrev pub nullish {ℓ} : {A : Type ℓ} → Option A → Option A → Option A
nullish none b = b
nullish (some a) b = some a

abbrev unique_target : UniqueMeta → Option Target
unique_target m = nullish m.target (nullish m.index m.fields)

-- The array names both columns.
unfoldable pub names_both : List Column → Bool
unfolding any_column is_tenant_id is_client_transaction_id
names_both cs = any_column is_tenant_id cs && any_column is_client_transaction_id cs

-- `duplicateRequest` of `TransactionsService.createInternal`: the unique index on the
-- client transaction id, by its name or by an array that names both columns.
unfoldable pub duplicate_request : PrismaError → Bool
duplicate_request (p2002 m) = elim (unique_target m) [
  | none ↦ false
  | some t ↦ elim t [ client_id_index ↦ true | other_index _ ↦ false | columns cs ↦ names_both cs ]
]
duplicate_request _ = false

-- `HeldOrdersService.isTransactionIdempotencyConflict`: the array also has exactly two columns.
unfoldable pub idempotency_conflict : PrismaError → Bool
idempotency_conflict (p2002 m) = elim (unique_target m) [
  | none ↦ false
  | some t ↦ elim t [
    | client_id_index ↦ true
    | other_index _ ↦ false
    | columns cs ↦ length cs == 2 && names_both cs
  ]
]
idempotency_conflict _ = false
