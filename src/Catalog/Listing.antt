-- ===== src/Catalog/Listing.antt =====
-- `findAll` of src/products/products.service.ts.
use kasirk_backend.Base.{
  ℕ, ◌&&◌, ◌||◌, Bool, true, List, [], ◌∷◌, map, Option, none, some, if◌then◌else◌, ◌==◌, opt_eq,
  leb, find, select, any,
}
use kasirk_backend.Base.Sort.{sort, list_eq}
use kasirk_backend.Base.Text.{Text}
use kasirk_backend.Database.Rows.{Db, Product, ProductStock}
use kasirk_backend.Database.Client.{Tx, ◌>>◌, gets}
use kasirk_backend.Transactions.Dto.{get_or}
use kasirk_backend.Catalog.Tables.{CatalogUser, Collation}
use kasirk_backend.Catalog.Products.{validate_category}
use kasirk_backend.Catalog.Assignments.{GroupResponse, read_assigned}

-- The query after its transforms: the search text is trimmed.
pub record QueryProductsDto : Type 0 where
  pub q : Option Text
  pub category_id : Option ℕ
  pub include_modifiers : Option Bool

-- The database's order of texts and its case-insensitive `contains`.
pub record Search : Type 0 where
  pub le : Collation
  pub contains : Text → Text → Bool

pub record CategoryRef : Type 0 where
  pub id : ℕ
  pub name : Text

pub record ProductResponse : Type 0 where
  pub product : Product
  pub category : Option CategoryRef
  pub modifier_groups : List GroupResponse
  pub stock : Option ℕ

-- The name or the SKU contains the text, if there is one.
unfoldable pub matches : Search → Option Text → Product → Bool
matches s none p = true
matches s (some []) p = true
matches s (some (c ∷ cs)) p = s.contains (c ∷ cs) p.name || s.contains (c ∷ cs) p.sku

unfoldable pub in_category : Option ℕ → Product → Bool
in_category none p = true
in_category (some c) p = opt_eq p.category_id (some c)

-- `where`
unfoldable pub listed : Search → CatalogUser → QueryProductsDto → Product → Bool
unfolding matches in_category
listed s user query p =
    p.tenant_id == user.tenant_id
    && p.is_active
    && in_category query.category_id p
    && matches s query.q p

-- `stockInclude` and `resolveStock`.
unfoldable pub stock_at : CatalogUser → ℕ → Db → ProductStock → Bool
stock_at user outlet db s =
    s.outlet_id == outlet && any (λ o. o.id == outlet && o.tenant_id == user.tenant_id) db.outlets

abbrev stock_or_zero : Option ProductStock → ℕ
stock_or_zero none = 0
stock_or_zero (some s) = s.stock

unfoldable pub resolve_stock : CatalogUser → Product → Db → Option ℕ
unfolding stock_at
resolve_stock user p db = elim user.outlet_id [
  | none ↦ none
  | some outlet ↦
      if p.track_stock
      then some (
          stock_or_zero
            (find (λ s. s.product_id == p.id && stock_at user outlet db s) db.product_stocks))
      else none
]

abbrev category_ref : Db → Option ℕ → Option CategoryRef
category_ref db none = none
category_ref db (some id) = elim (find (λ c. c.id == id) db.categories) [
  | none ↦ none
  | some c ↦ some (record { id = c.id; name = c.name })
]

unfoldable pub product_response : CatalogUser → Bool → Db → Product → ProductResponse
unfolding resolve_stock read_assigned
product_response user modifiers db p = record {
  product = p;
  category = category_ref db p.category_id;
  modifier_groups = if modifiers then read_assigned user.tenant_id p.id db else [];
  stock = resolve_stock user p db;
}

-- `orderBy: [{ name: 'asc' }, { id: 'asc' }]`
unfoldable pub product_le : Collation → Product → Product → Bool
unfolding list_eq
product_le le a b = if list_eq a.name b.name then leb a.id b.id else le a.name b.name

-- `findAll`
unfoldable pub find_all_products :
    Search → CatalogUser → QueryProductsDto → Tx (List ProductResponse)
unfolding validate_category listed product_response product_le sort
find_all_products s user query = do
  validate_category user query.category_id
  gets λ db.
      map (product_response user (get_or query.include_modifiers true) db)
        (sort (product_le s.le) (select (listed s user query) db.products))
