-- ===== src/Catalog/Requests/Products.antt =====
-- The steps that the requests on products make.
use kasirk_backend.Base.{ℕ, ◌≡◌, Bool, true, false, not, Option, none, some, arith, find, any}
use kasirk_backend.Common.Errors.{bad_request, product_field_required, ok}
use kasirk_backend.Database.Rows.{Db}
use kasirk_backend.Database.Client.{gets, raise_if-ok}
use kasirk_backend.Catalog.Tables.{CatalogUser, insert, change, uq_products_tenant_sku}
use kasirk_backend.Catalog.Categories.{own_category}
use kasirk_backend.Catalog.Products.{
  CreateProductDto, UpdateProductDto, validate_category, insert_product, create_product,
  validate_product, given_category, no_fields, new_product, add_product, own_product, set_product,
  patch_product, sku_exists, same_sku, sku_taken, rewrite_product, update_product,
}
use kasirk_backend.Catalog.Steps.{
  product_added, product_set, Steps-guard, IsCategory, IsPatch, Steps, Reads, Steps-read,
  Steps-catching, Steps-unless_taken, Steps-insert, Steps-change, Reads-gets, Reads-raise_if,
  Reads-bind, Reads-pure,
}

module _ (user : CatalogUser) where
  validate_category-Reads : (c : Option ℕ) → Reads user (validate_category user c)
  unfolding validate_category
  validate_category-Reads none = Reads-pure user tt
  validate_category-Reads (some id) =
      Reads-bind user (gets (λ db. db.categories)) _ (Reads-gets user (λ db. db.categories))
        (λ rows. Reads-raise_if user (not (any (own_category user id) rows)) _)

  not-false : (t : Bool) → not t ≡ false → t ≡ true
  not-false t h = ground arith

  validate_category-ok :
      (c : Option ℕ) (db : Db) (u : Unit {0})
      → validate_category user c db ≡ ok (u, db)
      → IsCategory user c db
  unfolding validate_category
  validate_category-ok none db u h = tt
  validate_category-ok (some id) db u h =
      not-false (any (own_category user id) db.categories)
        (raise_if-ok (not (any (own_category user id) db.categories)) _ db h).0

  given_category-Reads : (c : Option (Option ℕ)) → Reads user (given_category user c)
  given_category-Reads none = Reads-pure user tt
  given_category-Reads (some c) = validate_category-Reads c

  given_category-ok :
      (c : Option (Option ℕ)) (db : Db) (u : Unit {0})
      → given_category user c db ≡ ok (u, db)
      → IsPatch user c db
  given_category-ok none db u h = tt
  given_category-ok (some c) db u h = validate_category-ok c db u h

  pub validate_product-Reads : (id : ℕ) → Reads user (validate_product user.tenant_id id)
  unfolding validate_product
  validate_product-Reads id =
      Reads-bind user (gets (λ db. db.products)) _ (Reads-gets user (λ db. db.products))
        (λ rows. Reads-raise_if user (not (any (own_product user.tenant_id id) rows)) _)

  insert_product-Steps :
      (dto : CreateProductDto) (db : Db)
      → IsCategory user dto.category_id db
      → Steps user (insert_product user.tenant_id dto) db
  unfolding insert_product
  insert_product-Steps dto db c =
      Steps-unless_taken user uq_products_tenant_sku
        (any (same_sku user.tenant_id dto.sku) db.products)
        (insert (new_product user.tenant_id dto) add_product) db
        (Steps-insert user (new_product user.tenant_id dto) add_product db (product_added db dto c))

  pub create_product-Steps :
      (dto : CreateProductDto) (db : Db) → Steps user (create_product user dto) db
  unfolding create_product
  create_product-Steps dto db =
      Steps-read user (validate_category user dto.category_id) _ db
        (validate_category-Reads dto.category_id)
        λ u valid.
          Steps-catching user _ (insert_product user.tenant_id dto) db
            (insert_product-Steps dto db (validate_category-ok dto.category_id db u valid))

  rewrite_product-Steps :
      (id : ℕ) (dto : UpdateProductDto) (db : Db)
      → IsPatch user dto.category_id db
      → Steps user (rewrite_product user.tenant_id id dto) db
  unfolding rewrite_product
  rewrite_product-Steps id dto db c =
      let row = λ (d : Db). find (own_product user.tenant_id id) d.products in
      Steps-unless_taken user uq_products_tenant_sku (sku_taken user.tenant_id id dto.sku db)
        (change (set_product user.tenant_id id (patch_product dto)) row) db
        (Steps-change user (set_product user.tenant_id id (patch_product dto)) row db
          (product_set db id dto c))

  pub update_product-Steps :
      (id : ℕ) (dto : UpdateProductDto) (db : Db) → Steps user (update_product user id dto) db
  unfolding update_product
  update_product-Steps id dto db =
      Steps-read user (validate_product user.tenant_id id) _ db (validate_product-Reads id) λ _ _.
        Steps-read user (given_category user dto.category_id) _ db
          (given_category-Reads dto.category_id)
          λ u valid.
            Steps-guard user (no_fields dto) (bad_request product_field_required)
              (sku_exists (rewrite_product user.tenant_id id dto)) db
              λ _.
                Steps-catching user _ (rewrite_product user.tenant_id id dto) db
                  (rewrite_product-Steps id dto db (given_category-ok dto.category_id db u valid))
