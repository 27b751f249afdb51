-- ===== src/Catalog/Products.antt =====
-- The products of src/products/products.service.ts: `create` and `update`.
use kasirk_backend.Base.{
  ℕ, suc, ◌&&◌, not, Bool, true, false, [], ◌∷◌, ◌++◌, Option, none, some, ◌==◌, find, any, update,
}
use kasirk_backend.Base.Sort.{list_eq}
use kasirk_backend.Base.Text.{Text}
use kasirk_backend.Common.Errors.{
  conflict, not_found, bad_request, product_not_found, category_not_found, product_field_required,
  sku_already_exists, tenant_id, Column, other_column,
}
use kasirk_backend.Database.Rows.{Db, Product}
use kasirk_backend.Database.Client.{Tx, ◌>>=◌, ◌>>◌, pure, gets, raise_if}
use kasirk_backend.Transactions.Dto.{get_or}
use kasirk_backend.Catalog.Tables.{
  CatalogUser, insert, change, unless_taken, catching, rethrow_unique, uq_products_tenant_sku,
}
use kasirk_backend.Catalog.Categories.{own_category}

pub record CreateProductDto : Type 0 where
  pub name : Text
  pub sku : Text
  pub price : ℕ
  pub cost : ℕ
  pub minimum_stock : ℕ
  pub category_id : Option ℕ
  pub track_stock : Option Bool

-- `none` is `undefined`; a category may also be null.
pub record UpdateProductDto : Type 0 where
  pub name : Option Text
  pub sku : Option Text
  pub price : Option ℕ
  pub cost : Option ℕ
  pub minimum_stock : Option ℕ
  pub category_id : Option (Option ℕ)
  pub track_stock : Option Bool

-- `validateCategory`
unfoldable pub validate_category : CatalogUser → Option ℕ → Tx (Unit {0})
validate_category user none = pure tt
validate_category user (some id) = do
  rows ← gets (λ db. db.categories)
  raise_if (not (any (own_category user id) rows)) (not_found category_not_found)

-- The column `sku`, and `rethrowProductWriteError`.
abbrev pub sku_column : Column
sku_column = other_column 2

abbrev pub sku_exists : {A : Type 0} → Tx A → Tx A
sku_exists = catching (
    rethrow_unique uq_products_tenant_sku (tenant_id ∷ sku_column ∷ [])
      (conflict sku_already_exists))

unfoldable pub same_sku : ℕ → Text → Product → Bool
unfolding list_eq
same_sku tenant sku p = p.tenant_id == tenant && list_eq p.sku sku

unfoldable pub new_product : ℕ → CreateProductDto → Db → Product
new_product tenant dto db = record {
  id = db.next_id;
  tenant_id = tenant;
  category_id = dto.category_id;
  name = dto.name;
  sku = dto.sku;
  price = dto.price;
  cost = dto.cost;
  minimum_stock = dto.minimum_stock;
  track_stock = get_or dto.track_stock true;
  is_active = true;
}

abbrev pub add_product : Product → Db → Db
add_product row db = record db { products = db.products ++ row ∷ []; next_id = suc db.next_id }

unfoldable pub insert_product : ℕ → CreateProductDto → Tx Product
unfolding new_product same_sku
insert_product tenant dto db =
    unless_taken uq_products_tenant_sku (any (same_sku tenant dto.sku) db.products)
      (insert (new_product tenant dto) add_product) db

-- `create`
unfoldable pub create_product : CatalogUser → CreateProductDto → Tx Product
unfolding validate_category insert_product rethrow_unique unless_taken
create_product user dto = do
  validate_category user dto.category_id
  sku_exists (insert_product user.tenant_id dto)

abbrev pub own_product : ℕ → ℕ → Product → Bool
own_product tenant id p = p.id == id && p.tenant_id == tenant

-- `validateProductOwnership`
unfoldable pub validate_product : ℕ → ℕ → Tx (Unit {0})
validate_product tenant id = do
  rows ← gets (λ db. db.products)
  raise_if (not (any (own_product tenant id) rows)) (not_found product_not_found)

-- The fields that the request gives replace those of the row.
unfoldable pub patch_product : UpdateProductDto → Product → Product
patch_product dto p = record p {
  name = get_or dto.name p.name;
  sku = get_or dto.sku p.sku;
  price = get_or dto.price p.price;
  cost = get_or dto.cost p.cost;
  minimum_stock = get_or dto.minimum_stock p.minimum_stock;
  category_id = get_or dto.category_id p.category_id;
  track_stock = get_or dto.track_stock p.track_stock;
}

abbrev absent : {A : Type 0} → Option A → Bool
absent none = true
absent (some a) = false

-- `Object.keys(data).length === 0`
unfoldable pub no_fields : UpdateProductDto → Bool
no_fields dto =
    absent dto.name
    && absent dto.sku
    && absent dto.price
    && absent dto.cost
    && absent dto.minimum_stock
    && absent dto.category_id
    && absent dto.track_stock

unfoldable pub sku_taken : ℕ → ℕ → Option Text → Db → Bool
unfolding same_sku
sku_taken tenant id none db = false
sku_taken tenant id (some sku) db = any (λ p. not (p.id == id) && same_sku tenant sku p) db.products

abbrev pub set_product : ℕ → ℕ → (Product → Product) → Db → Db
set_product tenant id f db = record db { products = update (own_product tenant id) f db.products }

unfoldable pub rewrite_product : ℕ → ℕ → UpdateProductDto → Tx Product
unfolding patch_product sku_taken
rewrite_product tenant id dto db =
    unless_taken uq_products_tenant_sku (sku_taken tenant id dto.sku db)
      (change (set_product tenant id (patch_product dto))
        (λ d. find (own_product tenant id) d.products))
      db

abbrev pub given_category : CatalogUser → Option (Option ℕ) → Tx (Unit {0})
given_category user none = pure tt
given_category user (some c) = validate_category user c

-- `update`
unfoldable pub update_product : CatalogUser → ℕ → UpdateProductDto → Tx Product
unfolding validate_category validate_product no_fields rewrite_product rethrow_unique unless_taken
update_product user id dto = do
  validate_product user.tenant_id id
  given_category user dto.category_id
  raise_if (no_fields dto) (bad_request product_field_required)
  sku_exists (rewrite_product user.tenant_id id dto)
