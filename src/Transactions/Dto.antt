-- ===== src/Transactions/Dto.antt =====
-- The checkout request: create-transaction.dto.ts, create-transaction-item.dto.ts and
-- create-transaction-payment.dto.ts. The decorators on types (`IsUUID`, `IsInt`, `Min(0)`,
-- `IsString`) are the types of the fields; those on ranges and shapes are `valid_checkout`.
use kasirk_backend.Base.{
  ℕ, Bool, true, false, ◌&&◌, not, List, [], ◌∷◌, map, Option, none, some, if◌then◌else◌, leb,
  length, all, includes,
}
use kasirk_backend.Base.Text.{Text, trim, Uuid, lower_case}
use kasirk_backend.Database.Rows.{PaymentMethod, cash}

pub record ItemDto : Type 0 where
  pub product_id : Uuid
  pub quantity : ℕ
  pub modifier_option_ids : Option (List Uuid)
  pub note : Option Text

-- `has_change_amount` says that the object has a property `change_amount`.
pub record PaymentDto : Type 0 where
  pub method : PaymentMethod
  pub amount : Option ℕ
  pub amount_received : Option ℕ
  pub has_change_amount : Bool

pub record CheckoutDto : Type 0 where
  pub client_transaction_id : Uuid
  pub outlet_id : Uuid
  pub cashier_session_id : Option Uuid
  pub customer_id : Option Uuid
  pub items : List ItemDto
  pub discount : Option ℕ
  pub payment : PaymentDto

pub data CheckoutMode : Type 0 where
  v1 legacy_sync : CheckoutMode

abbrev pub is_v1 : CheckoutMode → Bool
is_v1 v1 = true
is_v1 legacy_sync = false

-- `Number.MAX_SAFE_INTEGER`
abbrev pub max_safe_integer : ℕ
max_safe_integer = 9_007_199_254_740_991

abbrev pub max_int : ℕ
max_int = 2_147_483_647

abbrev pub is_present {ℓ} : {A : Type ℓ} → Option A → Bool
is_present none = false
is_present (some _) = true

-- `ArrayUnique`, over the lower-case forms.
unfoldable pub all_distinct : List ℕ → Bool
all_distinct [] = true
all_distinct (x ∷ xs) = not (includes x xs) && all_distinct xs

valid_options : Option (List Uuid) → Bool
unfolding all_distinct
valid_options none = true
valid_options (some ids) = leb (length ids) 50 && all_distinct (map lower_case ids)

-- `Transform` trims the note before `MaxLength` measures it.
valid_note : Option Text → Bool
valid_note none = true
valid_note (some s) = leb (length (trim s)) 255

unfoldable pub valid_item : ItemDto → Bool
unfolding valid_options valid_note
valid_item i =
    leb 1 i.quantity
    && leb i.quantity max_int
    && valid_options i.modifier_option_ids
    && valid_note i.note

valid_amount : Option ℕ → Bool
valid_amount none = true
valid_amount (some a) = leb a max_safe_integer

bool_ne : Bool → Bool → Bool
bool_ne true b = not b
bool_ne false b = b

-- `PaymentTransportShapeConstraint.validate`
unfoldable pub transport_shape : PaymentDto → Bool
unfolding bool_ne
transport_shape p = elim p.method [
  | cash ↦ bool_ne (is_present p.amount) (is_present p.amount_received)
  | _ ↦ not (is_present p.amount) && not (is_present p.amount_received)
]

-- `forbidNonWhitelisted` refuses `change_amount`, which the DTO does not declare.
unfoldable pub valid_payment : PaymentDto → Bool
unfolding transport_shape valid_amount
valid_payment p =
    transport_shape p
    && valid_amount p.amount
    && valid_amount p.amount_received
    && not p.has_change_amount

-- `ArrayMinSize(1)`
abbrev pub non_empty {ℓ} : {A : Type ℓ} → List A → Bool
non_empty [] = false
non_empty (_ ∷ _) = true

-- `validate(dto, { whitelist, forbidNonWhitelisted })` of `CreateTransactionDto`
unfoldable pub valid_checkout : CheckoutDto → Bool
unfolding valid_amount valid_item valid_payment
valid_checkout d =
    is_present d.cashier_session_id
    && non_empty d.items
    && all valid_item d.items
    && valid_amount d.discount
    && valid_payment d.payment

-- What `normalizeCheckoutDto` gives: ids in lower case, defaults filled in, notes trimmed.
pub record Line : Type 0 where
  pub product_id : ℕ
  pub quantity : ℕ
  pub modifier_option_ids : List ℕ
  pub note : Option Text

pub record Checkout : Type 0 where
  pub client_transaction_id : ℕ
  pub outlet_id : ℕ
  pub cashier_session_id : Option ℕ
  pub customer_id : Option ℕ
  pub lines : List Line
  pub discount : ℕ
  pub payment : PaymentDto

abbrev pub map_option {ℓ κ} : {A : Type ℓ} {B : Type κ} → (A → B) → Option A → Option B
map_option f none = none
map_option f (some a) = some (f a)

abbrev pub get_or {ℓ} : {A : Type ℓ} → Option A → A → A
get_or none d = d
get_or (some a) _ = a

-- `plainToInstance(CreateTransactionDto, input)`: the notes trimmed, and the discount's default.
unfoldable pub trim_note : ItemDto → ItemDto
trim_note i = record i { note = map_option trim i.note }

unfoldable pub plain_to_instance : CheckoutDto → CheckoutDto
unfolding trim_note
plain_to_instance d = record d {
  items = map trim_note d.items;
  discount = some (get_or d.discount 0);
}

unfoldable pub normalize_item : ItemDto → Line
normalize_item i = record {
  product_id = lower_case i.product_id;
  quantity = i.quantity;
  modifier_option_ids = map lower_case (get_or i.modifier_option_ids []);
  note = map_option trim i.note;
}

unfoldable pub normalize_checkout_dto : CheckoutDto → CheckoutMode → Checkout
unfolding normalize_item
normalize_checkout_dto d mode = record {
  client_transaction_id = lower_case d.client_transaction_id;
  outlet_id = lower_case d.outlet_id;
  cashier_session_id = if is_v1 mode then map_option lower_case d.cashier_session_id else none;
  customer_id = map_option lower_case d.customer_id;
  lines = map normalize_item d.items;
  discount = get_or d.discount 0;
  payment = d.payment;
}

-- A normalized request as the object that the code passes on, its ids in lower case.
abbrev pub lower_text : ℕ → Uuid
lower_text n = record { value = n; casing = 0 }

abbrev pub line_dto : Line → ItemDto
line_dto l = record {
  product_id = lower_text l.product_id;
  quantity = l.quantity;
  modifier_option_ids = some (map lower_text l.modifier_option_ids);
  note = l.note;
}

abbrev pub checkout_dto : Checkout → CheckoutDto
checkout_dto c = record {
  client_transaction_id = lower_text c.client_transaction_id;
  outlet_id = lower_text c.outlet_id;
  cashier_session_id = map_option lower_text c.cashier_session_id;
  customer_id = map_option lower_text c.customer_id;
  items = map line_dto c.lines;
  discount = some c.discount;
  payment = c.payment;
}
