-- ===== src/Database/Rows.antt =====
-- The rows of prisma/schema.prisma, with the columns that the modelled services use. Prices, costs
-- and option deltas are naturals: the migrations' CHECK constraints keep them at zero or above.
use kasirk_backend.Base.{ℕ, Bool, true, false, List, Option}
use kasirk_backend.Base.Int.{ℤ}
use kasirk_backend.Base.Text.{Text}
use kasirk_backend.Common.Roles.{Role}
use kasirk_backend.Common.Tax.{TaxRate}

pub record User : Type 0 where
  pub id : ℕ
  pub tenant_id : ℕ
  pub outlet_id : Option ℕ
  pub name : Text
  pub email : Text
  pub password_hash : Text
  pub pin_hash : Option Text
  pub pin_failed_attempts : ℕ
  pub locked_until : Option ℕ
  pub pin_changed_at : Option ℕ
  pub role : Role
  pub is_active : Bool

pub record Tenant : Type 0 where
  pub id : ℕ
  pub store_code : Option Text
  pub name : Text
  pub tax_enabled : Bool
  pub tax_rate : TaxRate
  pub is_active : Bool

pub record Outlet : Type 0 where
  pub id : ℕ
  pub tenant_id : ℕ
  pub name : Text
  pub address : Option Text
  pub is_active : Bool

pub record Customer : Type 0 where
  pub id : ℕ
  pub tenant_id : ℕ
  pub name : Text
  pub phone : Option Text
  pub email : Option Text
  pub created_at : ℕ
  pub updated_at : ℕ

pub record Category : Type 0 where
  pub id : ℕ
  pub tenant_id : ℕ
  pub name : Text

pub data DeviceStatus : Type 0 where
  active revoked : DeviceStatus

abbrev pub is_active_device : DeviceStatus → Bool
is_active_device active = true
is_active_device revoked = false

-- `refresh_token_hash` is the number that the digits of the hash write.
pub record DeviceSession : Type 0 where
  pub id : ℕ
  pub tenant_id : ℕ
  pub user_id : ℕ
  pub device_id : ℕ
  pub device_name : Option Text
  pub refresh_token_hash : ℕ
  pub status : DeviceStatus
  pub created_at : ℕ
  pub last_used_at : ℕ
  pub expires_at : ℕ
  pub rotated_at : Option ℕ
  pub revoked_at : Option ℕ

pub record ReceiptSettings : Type 0 where
  pub tenant_id : ℕ
  pub outlet_id : ℕ
  pub header_store_name : Text
  pub header_outlet_name : Text
  pub header_address : Option Text
  pub header_phone : Option Text
  pub header_additional_text : Option Text
  pub show_sku : Bool
  pub show_modifiers : Bool
  pub show_item_notes : Bool
  pub show_cashier : Bool
  pub show_customer : Bool
  pub footer_thank_you_text : Text
  pub footer_promo_text : Option Text
  pub template_version : ℕ
  pub created_at : Option ℕ
  pub updated_at : Option ℕ

pub data SessionStatus : Type 0 where
  open_session closed_session : SessionStatus

abbrev pub is_open : SessionStatus → Bool
is_open open_session = true
is_open closed_session = false

pub record CashierSession : Type 0 where
  pub id : ℕ
  pub tenant_id : ℕ
  pub outlet_id : ℕ
  pub user_id : ℕ
  pub opening_cash : Option ℤ
  pub closing_cash : Option ℤ
  pub expected_cash : Option ℤ
  pub difference : Option ℤ
  pub status : SessionStatus
  pub opened_at : ℕ
  pub closed_at : Option ℕ

pub record Product : Type 0 where
  pub id : ℕ
  pub tenant_id : ℕ
  pub category_id : Option ℕ
  pub name : Text
  pub sku : Text
  pub price : ℕ
  pub cost : ℕ
  pub minimum_stock : ℕ
  pub track_stock : Bool
  pub is_active : Bool

pub record ModifierGroup : Type 0 where
  pub id : ℕ
  pub tenant_id : ℕ
  pub name : Text
  pub is_active : Bool
  pub display_order : ℕ

pub data SelectionType : Type 0 where
  single multiple : SelectionType

abbrev pub is_single : SelectionType → Bool
is_single single = true
is_single multiple = false

pub record ProductModifierGroup : Type 0 where
  pub tenant_id : ℕ
  pub product_id : ℕ
  pub modifier_group_id : ℕ
  pub required : Bool
  pub selection_type : SelectionType
  pub display_order : ℕ

pub record ModifierOption : Type 0 where
  pub id : ℕ
  pub tenant_id : ℕ
  pub modifier_group_id : ℕ
  pub name : Text
  pub price_delta : ℕ
  pub is_active : Bool
  pub display_order : ℕ

pub record ProductStock : Type 0 where
  pub outlet_id : ℕ
  pub product_id : ℕ
  pub stock : ℕ

pub data MovementType : Type 0 where
  sale adjustment : MovementType

pub record StockMovement : Type 0 where
  pub tenant_id : ℕ
  pub outlet_id : ℕ
  pub product_id : ℕ
  pub user_id : ℕ
  pub type : MovementType
  pub quantity : ℤ
  pub reference_id : ℕ
  pub reason : Option Text

pub data AdjustmentType : Type 0 where
  add deduct : AdjustmentType

pub record StockAdjustment : Type 0 where
  pub id : ℕ
  pub tenant_id : ℕ
  pub outlet_id : ℕ
  pub product_id : ℕ
  pub user_id : ℕ
  pub type : AdjustmentType
  pub quantity : ℕ
  pub reason : Text

pub data TransactionStatus : Type 0 where
  pending completed cancelled void : TransactionStatus

abbrev pub is_completed : TransactionStatus → Bool
is_completed completed = true
is_completed _ = false

pub record Transaction : Type 0 where
  pub id : ℕ
  pub tenant_id : ℕ
  pub outlet_id : ℕ
  pub user_id : ℕ
  pub customer_id : Option ℕ
  pub cashier_session_id : Option ℕ
  pub client_transaction_id : ℕ
  pub status : TransactionStatus
  pub subtotal : ℕ
  pub discount : ℕ
  pub tax : ℕ
  pub total : ℕ
  pub created_at : ℕ

pub record TransactionItem : Type 0 where
  pub id : ℕ
  pub tenant_id : ℕ
  pub transaction_id : ℕ
  pub product_id : ℕ
  pub quantity : ℕ
  pub unit_price : ℕ
  pub unit_cost : ℕ
  pub subtotal : ℕ
  pub product_name_snapshot : Option Text
  pub sku_snapshot : Option Text
  pub base_price_snapshot : Option ℕ
  pub effective_price_snapshot : Option ℕ
  pub note_snapshot : Option Text

pub record TransactionItemModifier : Type 0 where
  pub id : ℕ
  pub tenant_id : ℕ
  pub transaction_id : ℕ
  pub transaction_item_id : ℕ
  pub modifier_group_id : Option ℕ
  pub modifier_option_id : Option ℕ
  pub group_name_snapshot : Text
  pub option_name_snapshot : Text
  pub price_delta_snapshot : ℕ

pub data PaymentMethod : Type 0 where
  cash qris edc : PaymentMethod

abbrev pub method_eq : PaymentMethod → PaymentMethod → Bool
method_eq cash cash = true
method_eq qris qris = true
method_eq edc edc = true
method_eq _ _ = false

pub data PaymentStatus : Type 0 where
  pending_payment paid failed cancelled_payment : PaymentStatus

abbrev pub is_paid : PaymentStatus → Bool
is_paid paid = true
is_paid _ = false

pub record Payment : Type 0 where
  pub id : ℕ
  pub tenant_id : ℕ
  pub transaction_id : ℕ
  pub method : PaymentMethod
  pub status : PaymentStatus
  pub amount : ℕ
  pub amount_received : Option ℕ
  pub change_amount : Option ℕ
  pub paid_at : ℕ

pub data HeldOrderStatus : Type 0 where
  open_order converted_order cancelled_order : HeldOrderStatus

abbrev pub is_open_order : HeldOrderStatus → Bool
is_open_order open_order = true
is_open_order _ = false

pub record HeldOrder : Type 0 where
  pub id : ℕ
  pub tenant_id : ℕ
  pub outlet_id : ℕ
  pub origin_cashier_session_id : ℕ
  pub cashier_user_id : ℕ
  pub label : Option Text
  pub status : HeldOrderStatus
  pub version : ℕ
  pub subtotal_estimate : ℕ
  pub tax_estimate : ℕ
  pub total_estimate : ℕ
  pub converted_transaction_id : Option ℕ
  pub cancelled_at : Option ℕ
  pub converted_at : Option ℕ

pub record HeldOrderItem : Type 0 where
  pub id : ℕ
  pub tenant_id : ℕ
  pub held_order_id : ℕ
  pub product_id : ℕ
  pub quantity : ℕ
  pub product_name_snapshot : Text
  pub sku_snapshot : Text
  pub base_price_snapshot : ℕ
  pub effective_price_snapshot : ℕ
  pub line_subtotal : ℕ
  pub line_discount : ℕ
  pub line_total : ℕ
  pub note_snapshot : Option Text
  pub display_order : ℕ

pub record HeldOrderItemModifier : Type 0 where
  pub id : ℕ
  pub tenant_id : ℕ
  pub held_order_item_id : ℕ
  pub modifier_group_id : Option ℕ
  pub modifier_option_id : Option ℕ
  pub group_name_snapshot : Text
  pub option_name_snapshot : Text
  pub price_delta_snapshot : ℕ

-- The tables. `next_id` is an id that no row has yet (`gen_random_uuid`), and `clock` is the time.
pub record Db : Type 0 where
  pub users : List User
  pub tenants : List Tenant
  pub outlets : List Outlet
  pub customers : List Customer
  pub categories : List Category
  pub device_sessions : List DeviceSession
  pub receipt_settings : List ReceiptSettings
  pub cashier_sessions : List CashierSession
  pub products : List Product
  pub modifier_groups : List ModifierGroup
  pub product_modifier_groups : List ProductModifierGroup
  pub modifier_options : List ModifierOption
  pub product_stocks : List ProductStock
  pub stock_movements : List StockMovement
  pub stock_adjustments : List StockAdjustment
  pub transactions : List Transaction
  pub transaction_items : List TransactionItem
  pub transaction_item_modifiers : List TransactionItemModifier
  pub payments : List Payment
  pub held_orders : List HeldOrder
  pub held_order_items : List HeldOrderItem
  pub held_order_item_modifiers : List HeldOrderItemModifier
  pub next_id : ℕ
  pub clock : ℕ
