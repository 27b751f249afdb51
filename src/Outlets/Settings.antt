-- ===== src/Outlets/Settings.antt =====
-- src/outlets/receipt-settings.service.ts.
use kasirk_backend.Base.{
  ℕ, ◌&&◌, not, Bool, true, [], ◌∷◌, ◌++◌, Option, none, some, ◌==◌, opt_eq, find, update,
}
use kasirk_backend.Base.Text.{Text, IdText, uuid, malformed, lower_case}
use kasirk_backend.Common.Errors.{
  Result, ok, err, http, bad_request, unauthorized, forbidden, not_found, invalid_user_context,
  user_or_tenant_inactive, role_not_allowed, outlet_access_denied, outlet_not_found, invalid_id,
}
use kasirk_backend.Common.Errors
use kasirk_backend.Common.Roles.{Role, is_known, is_manager, is_cashier}
use kasirk_backend.Database.Rows.{Db, Outlet, Tenant, ReceiptSettings}
use kasirk_backend.Database.Client.{Tx, ◌>>=◌, ◌>>◌, reads, lift, raise_if}
use kasirk_backend.Database.Actors.{active_user}
use kasirk_backend.Transactions.Create.{JwtPayload}
use kasirk_backend.Outlets.Data.{UpdateReceiptSettingsDto, ReceiptData, write_data}

pub record ActorScope : Type 0 where
  pub tenant_id : ℕ
  pub role : Role
  pub outlet_id : Option ℕ

-- `outletId`
unfoldable pub settings_outlet : IdText → Result ℕ
settings_outlet (uuid u) = ok (lower_case u)
settings_outlet (malformed _) = err (http (bad_request invalid_id))

-- `actorScope`
unfoldable pub actor_scope : JwtPayload → Db → Result ActorScope
actor_scope user db = elim user.sub [
  | malformed _ ↦ err (http (unauthorized invalid_user_context))
  | uuid s ↦ elim user.tenant_id [
    | malformed _ ↦ err (http (unauthorized invalid_user_context))
    | uuid t ↦
        Errors.◌>>=◌
          (Errors.or_raise (find (active_user (lower_case s) (lower_case t) db) db.users)
            (unauthorized user_or_tenant_inactive))
          λ actor.
            Errors.◌>>◌ (Errors.raise_if (not (is_known actor.role)) (forbidden role_not_allowed)) (
              ok (record {
                tenant_id = lower_case t;
                role = actor.role;
                outlet_id = actor.outlet_id;
              }))
  ]
]

-- `assertOutletAccess`
abbrev pub denied : ActorScope → ℕ → Bool
denied scope outlet = is_cashier scope.role && not (opt_eq scope.outlet_id (some outlet))

abbrev pub active_outlet : ℕ → ℕ → Outlet → Bool
active_outlet tenant outlet o = o.id == outlet && o.tenant_id == tenant && o.is_active

-- `findOutlet`
unfoldable pub find_outlet : ℕ → ℕ → Db → Result Outlet
find_outlet tenant outlet db =
    Errors.or_raise (find (active_outlet tenant outlet) db.outlets) (not_found outlet_not_found)

abbrev pub name_of : Option Tenant → Text
name_of none = []
name_of (some t) = t.name

-- `defaults`. The tenant of an outlet exists by its foreign key.
unfoldable pub defaults : ℕ → Outlet → Db → ReceiptSettings
defaults tenant outlet db = record {
  tenant_id = tenant;
  outlet_id = outlet.id;
  header_store_name = name_of (find (λ t. t.id == outlet.tenant_id) db.tenants);
  header_outlet_name = outlet.name;
  header_address = outlet.address;
  header_phone = none;
  header_additional_text = none;
  show_sku = true;
  show_modifiers = true;
  show_item_notes = true;
  show_cashier = true;
  show_customer = true;
  footer_thank_you_text = 84 ∷ 101 ∷ 114 ∷ 105 ∷ 109 ∷ 97 ∷ 32 ∷ 107 ∷ 97 ∷ 115 ∷ 105 ∷ 104 ∷ [];
  footer_promo_text = none;
  template_version = 1;
  created_at = none;
  updated_at = none;
}

-- The key of the table.
abbrev pub of_outlet : ℕ → ℕ → ReceiptSettings → Bool
of_outlet tenant outlet r = r.tenant_id == tenant && r.outlet_id == outlet

abbrev pub or_defaults : Option ReceiptSettings → ReceiptSettings → ReceiptSettings
or_defaults none r = r
or_defaults (some s) r = s

unfoldable pub read_settings : JwtPayload → ℕ → Db → Result ReceiptSettings
unfolding actor_scope find_outlet defaults
read_settings user outlet db = Errors.◌>>=◌ (actor_scope user db) λ scope.
    Errors.◌>>◌ (Errors.raise_if (denied scope outlet) (forbidden outlet_access_denied)) (
      Errors.◌>>=◌ (find_outlet scope.tenant_id outlet db) λ o. ok (
        or_defaults (find (of_outlet scope.tenant_id outlet) db.receipt_settings)
          (defaults scope.tenant_id o db)))

-- `get`
unfoldable pub get_settings : JwtPayload → IdText → Tx ReceiptSettings
unfolding settings_outlet read_settings
get_settings user id = do outlet ← lift (settings_outlet id); reads (read_settings user outlet)

-- `create` of the upsert
unfoldable pub new_settings : ℕ → ℕ → ReceiptData → ℕ → ReceiptSettings
new_settings tenant outlet d now = record {
  tenant_id = tenant;
  outlet_id = outlet;
  header_store_name = d.header_store_name;
  header_outlet_name = d.header_outlet_name;
  header_address = d.header_address;
  header_phone = d.header_phone;
  header_additional_text = d.header_additional_text;
  show_sku = d.show_sku;
  show_modifiers = d.show_modifiers;
  show_item_notes = d.show_item_notes;
  show_cashier = d.show_cashier;
  show_customer = d.show_customer;
  footer_thank_you_text = d.footer_thank_you_text;
  footer_promo_text = d.footer_promo_text;
  template_version = 1;
  created_at = some now;
  updated_at = some now;
}

-- `update` of the upsert: all but the key and `created_at` is written.
unfoldable pub patch_settings : ReceiptData → ℕ → ReceiptSettings → ReceiptSettings
unfolding new_settings
patch_settings d now r = record (new_settings r.tenant_id r.outlet_id d now) {
  created_at = r.created_at;
}

unfoldable pub upserted : ℕ → ℕ → ReceiptData → Db → Option ReceiptSettings → ReceiptSettings × Db
unfolding new_settings patch_settings
upserted tenant outlet d db none =
    let row = new_settings tenant outlet d db.clock in
    (row, record db { receipt_settings = db.receipt_settings ++ row ∷ [] })
upserted tenant outlet d db (some r) = (
  patch_settings d db.clock r,
  record db {
    receipt_settings =
        update (of_outlet tenant outlet) (patch_settings d db.clock) db.receipt_settings;
  },
)

-- `upsert`
unfoldable pub upsert_settings : ℕ → ℕ → ReceiptData → Tx ReceiptSettings
unfolding upserted
upsert_settings tenant outlet d db =
    ok (upserted tenant outlet d db (find (of_outlet tenant outlet) db.receipt_settings))

-- `put`
unfoldable pub put_settings : JwtPayload → IdText → UpdateReceiptSettingsDto → Tx ReceiptSettings
unfolding settings_outlet write_data actor_scope find_outlet upsert_settings
put_settings user id dto = do
  outlet ← lift (settings_outlet id)
  d ← lift (write_data dto)
  scope ← reads (actor_scope user)
  raise_if (not (is_manager scope.role)) (forbidden role_not_allowed)
  reads (find_outlet scope.tenant_id outlet)
  upsert_settings scope.tenant_id outlet d
