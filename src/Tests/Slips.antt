-- ===== src/Tests/Slips.antt =====
-- The receipt settings of the sample shop's outlet.
use kasirk_backend.Base.{ℕ, ◌≡◌, refl, true, [], ◌∷◌, none, some}
use kasirk_backend.Base.Text.{IdText, uuid}
use kasirk_backend.Common.Errors.{ok}
use kasirk_backend.Common.Roles.{owner}
use kasirk_backend.Database.Rows.{Db, ReceiptSettings}
use kasirk_backend.Transactions.Create.{JwtPayload}
use kasirk_backend.Outlets.Data.{UpdateReceiptSettingsDto, ReceiptData, write_data}
use kasirk_backend.Outlets.Settings.{settings_outlet, put_settings, get_settings}
use kasirk_backend.Outlets.Saved.{IsSaved, put_settings-IsSaved}
use kasirk_backend.Tests.Sample.{shop, cashier_row}

abbrev owned : Db
owned = record shop { users = record cashier_row { id = 1; role = owner } ∷ [] }

abbrev owner_token : JwtPayload
owner_token = record {
  sub = uuid (record { value = 1; casing = 0 });
  tenant_id = uuid (record { value = 1; casing = 0 });
}

abbrev outlet_id : IdText
outlet_id = uuid (record { value = 3; casing = 1 })

abbrev slip : UpdateReceiptSettingsDto
slip = record {
  header_store_name = some (83 ∷ []);
  header_outlet_name = some (79 ∷ []);
  header_address = some none;
  header_phone = some (some (48 ∷ []));
  header_additional_text = some none;
  show_sku = some true;
  show_modifiers = some true;
  show_item_notes = some true;
  show_cashier = some true;
  show_customer = some true;
  footer_thank_you_text = some (84 ∷ []);
  footer_promo_text = some none;
}

abbrev slip_row : ReceiptSettings
slip_row = record {
  tenant_id = 1;
  outlet_id = 3;
  header_store_name = 83 ∷ [];
  header_outlet_name = 79 ∷ [];
  header_address = none;
  header_phone = some (48 ∷ []);
  header_additional_text = none;
  show_sku = true;
  show_modifiers = true;
  show_item_notes = true;
  show_cashier = true;
  show_customer = true;
  footer_thank_you_text = 84 ∷ [];
  footer_promo_text = none;
  template_version = 1;
  created_at = some owned.clock;
  updated_at = some owned.clock;
}

abbrev slipped : Db
slipped = record owned { receipt_settings = slip_row ∷ [] }

slip_put : put_settings owner_token outlet_id slip owned ≡ ok (slip_row, slipped)
unfolding put_settings
slip_put = refl

put_settings-IsSaved_example :
    (outlet : ℕ) × (tenant : ℕ) × (d : ReceiptData) × (settings_outlet outlet_id ≡ ok outlet)
    × (write_data slip ≡ ok d)
    × IsSaved tenant outlet d owned slipped slip_row
    × (get_settings owner_token outlet_id slipped ≡ ok (slip_row, slipped))
put_settings-IsSaved_example =
    put_settings-IsSaved owner_token outlet_id slip owned slipped slip_row slip_put
