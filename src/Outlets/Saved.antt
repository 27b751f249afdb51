-- ===== src/Outlets/Saved.antt =====
-- `put` of receipt-settings.service.ts and the `get` after it.
use kasirk_backend.Base.{
  ℕ, ◌≡◌, refl, subst, ◌∙◌, true, false, ◌&&◌, not, List, [], ◌∷◌, Option, none, some, arith,
  ==_refl, opt_eq, find, find-true, find-append, update, inl, inr, Bool-cases,
}
use kasirk_backend.Base.Text.{IdText}
use kasirk_backend.Base.Updates.{find-update}
use kasirk_backend.Catalog.Foreign.{foreign, foreign-append}
use kasirk_backend.Common.Errors.{ok, ok-inj, forbidden, role_not_allowed}
use kasirk_backend.Common.Roles.{Role, owner, admin, cashier, unknown_role, is_manager, is_cashier}
use kasirk_backend.Database.Rows.{Db, ReceiptSettings, Outlet}
use kasirk_backend.Database.Client.{lift, raise_if, bind-ok, lift-ok, reads-bind, raise_if-ok}
use kasirk_backend.Transactions.Create.{JwtPayload}
use kasirk_backend.Outlets.Data.{UpdateReceiptSettingsDto, ReceiptData, write_data}
use kasirk_backend.Outlets.Settings.{
  ActorScope, settings_outlet, actor_scope, denied, find_outlet, read_settings, get_settings,
  of_outlet, new_settings, patch_settings, upserted, upsert_settings, put_settings,
}

-- The fields of a row that a request can write.
abbrev pub data_of : ReceiptSettings → ReceiptData
data_of r = record {
  header_store_name = r.header_store_name;
  header_outlet_name = r.header_outlet_name;
  header_address = r.header_address;
  header_phone = r.header_phone;
  header_additional_text = r.header_additional_text;
  show_sku = r.show_sku;
  show_modifiers = r.show_modifiers;
  show_item_notes = r.show_item_notes;
  show_cashier = r.show_cashier;
  show_customer = r.show_customer;
  footer_thank_you_text = r.footer_thank_you_text;
  footer_promo_text = r.footer_promo_text;
}

-- The row of the outlet holds the data, and the other rows are what they were.
pub record IsSaved (tenant outlet : ℕ) (d : ReceiptData) (db db' : Db) (r : ReceiptSettings)
    : Type 0 where
  pub stored : find (of_outlet tenant outlet) db'.receipt_settings ≡ some r
  pub written : data_of r ≡ d
  pub others :
      foreign (of_outlet tenant outlet) db'.receipt_settings
      ≡ foreign (of_outlet tenant outlet) db.receipt_settings

not-denied :
    (role : Role) (outlet : ℕ) (own : Option ℕ)
    → not (is_manager role) ≡ false
    → (is_cashier role && not (opt_eq own (some outlet))) ≡ false
not-denied owner outlet own h = refl
not-denied admin outlet own h = refl
not-denied cashier outlet own h = cc
not-denied (unknown_role n) outlet own h = cc

module _ (tenant outlet : ℕ) (d : ReceiptData) (db : Db) where
  of_outlet-new : of_outlet tenant outlet (new_settings tenant outlet d db.clock) ≡ true
  unfolding new_settings
  of_outlet-new = rw (==_refl tenant, ==_refl outlet)

  of_outlet-patch :
      (r : ReceiptSettings)
      → of_outlet tenant outlet (patch_settings d db.clock r) ≡ of_outlet tenant outlet r
  unfolding patch_settings
  of_outlet-patch r = refl

  own_patches :
      (rs : List ReceiptSettings)
      → foreign
          (of_outlet tenant outlet)
          (update (of_outlet tenant outlet) (patch_settings d db.clock) rs)
        ≡ foreign (of_outlet tenant outlet) rs
  unfolding patch_settings
  own_patches [] = refl
  own_patches (r ∷ rs) = elim (Bool-cases (of_outlet tenant outlet r)) [
    | inl e ↦ rw (e, of_outlet-patch r, e) (own_patches rs)
    | inr e ↦ ground (arith, e, own_patches rs)
  ]

  upserted-IsSaved :
      (o : Option ReceiptSettings)
      → find (of_outlet tenant outlet) db.receipt_settings ≡ o
      → IsSaved tenant outlet d db
          (upserted tenant outlet d db o).1
          (upserted tenant outlet d db o).0
  unfolding new_settings patch_settings upserted
  upserted-IsSaved none e = record {
    stored = find-append (of_outlet tenant outlet) db.receipt_settings _ e ∙ rw of_outlet-new;
    written = refl;
    others =
        foreign-append (of_outlet tenant outlet) db.receipt_settings
          (new_settings tenant outlet d db.clock ∷ []) (of_outlet-new, tt);
  }
  upserted-IsSaved (some r) e = record {
    stored =
        find-update (of_outlet tenant outlet) (of_outlet tenant outlet) (patch_settings d db.clock)
          of_outlet-patch db.receipt_settings r e
        ∙ rw (find-true (of_outlet tenant outlet) db.receipt_settings r e);
    written = refl;
    others = own_patches db.receipt_settings;
  }

module _ (user : JwtPayload) (id : IdText) where
  get_settings-found :
      (db : Db) (outlet : ℕ) (scope : ActorScope) (o : Outlet) (r : ReceiptSettings)
      → settings_outlet id ≡ ok outlet
      → actor_scope user db ≡ ok scope
      → denied scope outlet ≡ false
      → find_outlet scope.tenant_id outlet db ≡ ok o
      → find (of_outlet scope.tenant_id outlet) db.receipt_settings ≡ some r
      → get_settings user id db ≡ ok (r, db)
  unfolding get_settings read_settings
  get_settings-found db outlet scope o r h1 h2 h3 h4 h5 = rw (h1, h2, h3, h4, h5)

  upserted-actor :
      (tenant outlet : ℕ) (d : ReceiptData) (db : Db) (o : Option ReceiptSettings)
      → actor_scope user (upserted tenant outlet d db o).1 ≡ actor_scope user db
  unfolding actor_scope upserted
  upserted-actor tenant outlet d db none = refl
  upserted-actor tenant outlet d db (some r) = refl

  upserted-outlet :
      (tenant outlet : ℕ) (d : ReceiptData) (db : Db) (o : Option ReceiptSettings)
      → find_outlet tenant outlet (upserted tenant outlet d db o).1 ≡ find_outlet tenant outlet db
  unfolding find_outlet upserted
  upserted-outlet tenant outlet d db none = refl
  upserted-outlet tenant outlet d db (some r) = refl

  upsert_settings-IsSaved :
      (outlet : ℕ) (scope : ActorScope) (o : Outlet) (d : ReceiptData) (db db' : Db)
      (r : ReceiptSettings)
      → settings_outlet id ≡ ok outlet
      → actor_scope user db ≡ ok scope
      → denied scope outlet ≡ false
      → find_outlet scope.tenant_id outlet db ≡ ok o
      → upsert_settings scope.tenant_id outlet d db ≡ ok (r, db')
      → IsSaved scope.tenant_id outlet d db db' r × (get_settings user id db' ≡ ok (r, db'))
  unfolding upsert_settings
  upsert_settings-IsSaved outlet scope o d db db' r h1 h2 h3 h4 h =
      let found = find (of_outlet scope.tenant_id outlet) db.receipt_settings in
      let saved = upserted-IsSaved scope.tenant_id outlet d db found refl in
      subst
        (λ (x : ReceiptSettings × Db).
          IsSaved scope.tenant_id outlet d db x.1 x.0 × (get_settings user id x.1 ≡ ok (x.0, x.1)))
        (ok-inj h)
        (
          saved,
          get_settings-found _ outlet scope o _ h1
              (upserted-actor scope.tenant_id outlet d db found ∙ h2) h3
              (upserted-outlet scope.tenant_id outlet d db found ∙ h4) saved.stored,
        )

  -- An update of receipt settings that succeeds answers with a row that holds exactly the data of
  -- the request, stores it under the outlet and the tenant, leaves the rows of the other outlets
  -- as they are, and the same user who then reads the settings of that outlet gets the same row.
  pub put_settings-IsSaved :
      (dto : UpdateReceiptSettingsDto) (db db' : Db) (r : ReceiptSettings)
      → put_settings user id dto db ≡ ok (r, db')
      → (outlet : ℕ) × (tenant : ℕ) × (d : ReceiptData) × (settings_outlet id ≡ ok outlet)
        × (write_data dto ≡ ok d)
        × IsSaved tenant outlet d db db' r
        × (get_settings user id db' ≡ ok (r, db'))
  unfolding put_settings
  put_settings-IsSaved dto db db' r h =
      let (outlet, d1, e1, h1) = bind-ok (lift (settings_outlet id)) _ db h in
      let (d, d2, e2, h2) = bind-ok (lift (write_data dto)) _ d1 h1 in
      let (scope, e3, h3) = reads-bind (actor_scope user) _ d2 h2 in
      let (named, s1) = lift-ok (settings_outlet id) db e1 in
      let (written, s2) = lift-ok (write_data dto) d1 e2 in
      let (u, d3, e4, h4) =
        bind-ok (raise_if (not (is_manager scope.role)) (forbidden role_not_allowed)) _ d2 h3 in
      let (o, e5, h5) = reads-bind (find_outlet scope.tenant_id outlet) _ d3 h4 in
      let (manager, s3) = raise_if-ok (not (is_manager scope.role)) _ d2 e4 in
      let (saved, read) =
        upsert_settings-IsSaved outlet scope o d db db' r named
          (subst (λ x. actor_scope user x ≡ ok scope) (s2 ∙ s1) e3)
          (not-denied scope.role outlet scope.outlet_id manager)
          (subst (λ x. find_outlet scope.tenant_id outlet x ≡ ok o) (s3 ∙ s2 ∙ s1) e5)
          (subst (λ x. upsert_settings scope.tenant_id outlet d x ≡ ok (r, db')) (s3 ∙ s2 ∙ s1)
            h5) in
      (outlet, scope.tenant_id, d, named, written, saved, read)
