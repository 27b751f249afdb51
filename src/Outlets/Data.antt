-- ===== src/Outlets/Data.antt =====
-- The receipt settings that a request brings: src/outlets/dto/update-receipt-settings.dto.ts, and
-- `writeData` of receipt-settings.service.ts.
use kasirk_backend.Base.{ℕ, Bool, Option}
use kasirk_backend.Base.Text.{Text}
use kasirk_backend.Common.Errors.{Result, ok, bad_request, receipt_field_required, or_raise, ◌>>=◌}

-- `none` is a field that is missing or `undefined`.
pub record UpdateReceiptSettingsDto : Type 0 where
  pub header_store_name : Option Text
  pub header_outlet_name : Option Text
  pub header_address : Option (Option Text)
  pub header_phone : Option (Option Text)
  pub header_additional_text : Option (Option Text)
  pub show_sku : Option Bool
  pub show_modifiers : Option Bool
  pub show_item_notes : Option Bool
  pub show_cashier : Option Bool
  pub show_customer : Option Bool
  pub footer_thank_you_text : Option Text
  pub footer_promo_text : Option (Option Text)

-- The columns that an update writes, beside the template version 1.
pub record ReceiptData : Type 0 where
  pub header_store_name : Text
  pub header_outlet_name : Text
  pub header_address : Option Text
  pub header_phone : Option Text
  pub header_additional_text : Option Text
  pub show_sku : Bool
  pub show_modifiers : Bool
  pub show_item_notes : Bool
  pub show_cashier : Bool
  pub show_customer : Bool
  pub footer_thank_you_text : Text
  pub footer_promo_text : Option Text

abbrev field : {A : Type 0} → Option A → ℕ → Result A
field o n = or_raise o (bad_request (receipt_field_required n))

-- `writeData`: the first field that is missing, in the order of `editableFields`, is named.
unfoldable pub write_data : UpdateReceiptSettingsDto → Result ReceiptData
write_data d = do
  store_name ← field d.header_store_name 0
  outlet_name ← field d.header_outlet_name 1
  address ← field d.header_address 2
  phone ← field d.header_phone 3
  additional ← field d.header_additional_text 4
  sku ← field d.show_sku 5
  modifiers ← field d.show_modifiers 6
  notes ← field d.show_item_notes 7
  cashier ← field d.show_cashier 8
  customer ← field d.show_customer 9
  thanks ← field d.footer_thank_you_text 10
  promo ← field d.footer_promo_text 11
  ok (record {
    header_store_name = store_name;
    header_outlet_name = outlet_name;
    header_address = address;
    header_phone = phone;
    header_additional_text = additional;
    show_sku = sku;
    show_modifiers = modifiers;
    show_item_notes = notes;
    show_cashier = cashier;
    show_customer = customer;
    footer_thank_you_text = thanks;
    footer_promo_text = promo;
  })
