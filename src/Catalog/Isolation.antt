-- ===== src/Catalog/Isolation.antt =====
-- The catalogs of other tenants.
use kasirk_backend.Base.{
  ℕ, ◌≤◌, ◌≡◌, refl, ap, ◌∙◌, Bool, true, false, ◌&&◌, not, List, [], ◌∷◌, map, some, arith, ◌==◌,
  ==_refl, find, select, count_where, All, All_mono,
}
use kasirk_backend.Common.Errors.{ok}
use kasirk_backend.Database.Rows.{
  Db, Category, ModifierGroup, ModifierOption, Product, ProductModifierGroup,
}
use kasirk_backend.Catalog.Tables.{CatalogUser}
use kasirk_backend.Catalog.Categories.{own_category, new_category}
use kasirk_backend.Catalog.Groups.{own_group, new_group, own_option, new_option}
use kasirk_backend.Catalog.Products.{own_product, new_product, patch_product}
use kasirk_backend.Catalog.Assignments.{Checked, of_product, assigned, assignment_row}
use kasirk_backend.Catalog.Steps.{
  CatalogStep, unchanged, category_added, category_renamed, category_deleted, group_added,
  group_set, option_added, option_set, product_added, product_set, assignments_replaced,
  assignment_added, assignment_set, assignment_removed,
}
use kasirk_backend.Catalog.Requests.{CatalogRequest, serve, serve-CatalogStep}
use kasirk_backend.Catalog.Foreign.{
  foreign, foreign-append, foreign-update, foreign-select, all_own,
}

-- The primary keys of the two tables that the code writes by the id alone.
pub record HasKeys (db : Db) : Type 0 where
  pub category_ids : (id : ℕ) → count_where (λ c. c.id == id) db.categories ≤ 1
  pub option_ids : (id : ℕ) → count_where (λ o. o.id == id) db.modifier_options ≤ 1

-- The rows of the other tenants stay as they are.
pub record IsIsolated (tenant : ℕ) (db db' : Db) : Type 0 where
  pub categories :
      foreign (λ c. c.tenant_id == tenant) db'.categories
      ≡ foreign (λ c. c.tenant_id == tenant) db.categories
  pub modifier_groups :
      foreign (λ g. g.tenant_id == tenant) db'.modifier_groups
      ≡ foreign (λ g. g.tenant_id == tenant) db.modifier_groups
  pub modifier_options :
      foreign (λ o. o.tenant_id == tenant) db'.modifier_options
      ≡ foreign (λ o. o.tenant_id == tenant) db.modifier_options
  pub products :
      foreign (λ p. p.tenant_id == tenant) db'.products
      ≡ foreign (λ p. p.tenant_id == tenant) db.products
  pub product_modifier_groups :
      foreign (λ a. a.tenant_id == tenant) db'.product_modifier_groups
      ≡ foreign (λ a. a.tenant_id == tenant) db.product_modifier_groups

All_everywhere : {A : Type 0} (P : A → Type 0) → ((x : A) → P x) → (xs : List A) → All P xs
All_everywhere P f [] = tt
All_everywhere P f (x ∷ xs) = (f x, All_everywhere P f xs)

second : (a b : Bool) → (a && b) ≡ true → b ≡ true
second a b h = ground arith

first : (a b : Bool) → (a && b) ≡ true → a ≡ true
first a b h = ground arith

not-false : (t : Bool) → not t ≡ false → t ≡ true
not-false t h = ground arith

module _ (tenant : ℕ) where
  same : (db : Db) → IsIsolated tenant db db
  same db = record {
    categories = refl;
    modifier_groups = refl;
    modifier_options = refl;
    products = refl;
    product_modifier_groups = refl;
  }

  rows_own :
      (product : ℕ) (cs : List Checked)
      → All
          (λ (a : ProductModifierGroup). (a.tenant_id == tenant) ≡ true)
          (map (assignment_row tenant product) cs)
  unfolding assignment_row
  rows_own product [] = tt
  rows_own product (c ∷ cs) = (==_refl tenant, rows_own product cs)

  row_own :
      (product : ℕ) (c : Checked) → ((assignment_row tenant product c).tenant_id == tenant) ≡ true
  unfolding assignment_row
  row_own product c = ==_refl tenant

module _ (u : CatalogUser) where
  abbrev t : ℕ
  t = u.tenant_id

  own_categories :
      (id : ℕ) (c : Category) (db : Db)
      → find (own_category u id) db.categories ≡ some c
      → HasKeys db
      → All (λ (x : Category). (x.id == id) ≡ true → (x.tenant_id == t) ≡ true) db.categories
  own_categories id c db found k =
      all_own (λ (x : Category). x.tenant_id == t) (λ x. x.id == id) (own_category u id)
        db.categories c
        (λ x e. (first (x.id == id) (x.tenant_id == t) e, second (x.id == id) (x.tenant_id == t) e))
        (k.category_ids id) found

  own_options :
      (group id : ℕ) (o : ModifierOption) (db : Db)
      → find (own_option t group id) db.modifier_options ≡ some o
      → HasKeys db
      → All
          (λ (x : ModifierOption). (x.id == id) ≡ true → (x.tenant_id == t) ≡ true)
          db.modifier_options
  own_options group id o db found k =
      all_own (λ (x : ModifierOption). x.tenant_id == t) (λ x. x.id == id) (own_option t group id)
        db.modifier_options o (λ x e. (ground (arith, e), ground (arith, e))) (k.option_ids id)
        found

  CatalogStep-IsIsolated : {db db' : Db} → CatalogStep u db db' → HasKeys db → IsIsolated t db db'
  unfolding new_group new_option new_product patch_product
  CatalogStep-IsIsolated (unchanged db) k = same t db
  CatalogStep-IsIsolated (category_added db name) k = record {
    modifier_groups = refl;
    modifier_options = refl;
    products = refl;
    product_modifier_groups = refl;
    categories =
        foreign-append (λ (c : Category). c.tenant_id == t) db.categories
          (new_category t name db ∷ []) (==_refl t, tt);
  }
  CatalogStep-IsIsolated (category_renamed db id name c found) k = record {
    modifier_groups = refl;
    modifier_options = refl;
    products = refl;
    product_modifier_groups = refl;
    categories =
        foreign-update (λ (c : Category). c.tenant_id == t) (λ c. c.id == id)
          (λ c. record c { name = name }) db.categories
          (All_mono _ _ (λ x h e. (h e, h e)) db.categories (own_categories id c db found k));
  }
  CatalogStep-IsIsolated (category_deleted db id c found free) k = record {
    modifier_groups = refl;
    modifier_options = refl;
    products = refl;
    product_modifier_groups = refl;
    categories =
        foreign-select (λ (c : Category). c.tenant_id == t) (λ c. not (c.id == id)) db.categories
          (All_mono _ _ (λ x h e. h (not-false (x.id == id) e)) db.categories
            (own_categories id c db found k));
  }
  CatalogStep-IsIsolated (group_added db dto) k = record {
    categories = refl;
    modifier_options = refl;
    products = refl;
    product_modifier_groups = refl;
    modifier_groups =
        foreign-append (λ (g : ModifierGroup). g.tenant_id == t) db.modifier_groups
          (new_group t dto db ∷ []) (==_refl t, tt);
  }
  CatalogStep-IsIsolated (group_set db id f keeps) k = record {
    categories = refl;
    modifier_options = refl;
    products = refl;
    product_modifier_groups = refl;
    modifier_groups =
        foreign-update (λ (g : ModifierGroup). g.tenant_id == t) (own_group t id) f
          db.modifier_groups
          (All_everywhere _
            (λ g e. (
              second (g.id == id) (g.tenant_id == t) e,
              ap (λ (n : ℕ). n == t) (keeps g).1 ∙ second (g.id == id) (g.tenant_id == t) e,
            ))
            db.modifier_groups);
  }
  CatalogStep-IsIsolated (option_added db group dto) k = record {
    categories = refl;
    modifier_groups = refl;
    products = refl;
    product_modifier_groups = refl;
    modifier_options =
        foreign-append (λ (o : ModifierOption). o.tenant_id == t) db.modifier_options
          (new_option t group dto db ∷ []) (==_refl t, tt);
  }
  CatalogStep-IsIsolated (option_set db group id f o keeps found) k = record {
    categories = refl;
    modifier_groups = refl;
    products = refl;
    product_modifier_groups = refl;
    modifier_options =
        foreign-update (λ (o : ModifierOption). o.tenant_id == t) (λ o. o.id == id) f
          db.modifier_options
          (All_mono _ _ (λ x h e. (h e, ap (λ (n : ℕ). n == t) (keeps x).1 ∙ h e))
            db.modifier_options (own_options group id o db found k));
  }
  CatalogStep-IsIsolated (product_added db dto valid) k = record {
    categories = refl;
    modifier_groups = refl;
    modifier_options = refl;
    product_modifier_groups = refl;
    products =
        foreign-append (λ (p : Product). p.tenant_id == t) db.products (new_product t dto db ∷ [])
          (==_refl t, tt);
  }
  CatalogStep-IsIsolated (product_set db id dto valid) k = record {
    categories = refl;
    modifier_groups = refl;
    modifier_options = refl;
    product_modifier_groups = refl;
    products =
        foreign-update (λ (p : Product). p.tenant_id == t) (own_product t id) (patch_product dto)
          db.products
          (All_everywhere _
            (λ p e.
              (second (p.id == id) (p.tenant_id == t) e, second (p.id == id) (p.tenant_id == t) e))
            db.products);
  }
  CatalogStep-IsIsolated (assignments_replaced db product cs good) k = record {
    categories = refl;
    modifier_groups = refl;
    modifier_options = refl;
    products = refl;
    product_modifier_groups =
        foreign-append (λ (a : ProductModifierGroup). a.tenant_id == t)
          (select (λ a. not (of_product t product a)) db.product_modifier_groups)
          (map (assignment_row t product) cs) (rows_own t product cs)
        ∙ foreign-select (λ (a : ProductModifierGroup). a.tenant_id == t)
            (λ a. not (of_product t product a)) db.product_modifier_groups
            (All_everywhere _
              (λ a e.
                first (a.tenant_id == t) (a.product_id == product)
                  (not-false (of_product t product a) e))
              db.product_modifier_groups);
  }
  CatalogStep-IsIsolated (assignment_added db product c good) k = record {
    categories = refl;
    modifier_groups = refl;
    modifier_options = refl;
    products = refl;
    product_modifier_groups =
        foreign-append (λ (a : ProductModifierGroup). a.tenant_id == t) db.product_modifier_groups
          (assignment_row t product c ∷ []) (row_own t product c, tt);
  }
  CatalogStep-IsIsolated (assignment_set db product group c good) k = record {
    categories = refl;
    modifier_groups = refl;
    modifier_options = refl;
    products = refl;
    product_modifier_groups =
        foreign-update (λ (a : ProductModifierGroup). a.tenant_id == t) (assigned t product group)
          (λ a. assignment_row t product c) db.product_modifier_groups
          (All_everywhere _
            (λ a e. (
              first (a.tenant_id == t) (a.product_id == product)
                  (first (of_product t product a) (a.modifier_group_id == group) e),
              row_own t product c,
            ))
            db.product_modifier_groups);
  }
  CatalogStep-IsIsolated (assignment_removed db product group) k = record {
    categories = refl;
    modifier_groups = refl;
    modifier_options = refl;
    products = refl;
    product_modifier_groups =
        foreign-select (λ (a : ProductModifierGroup). a.tenant_id == t)
          (λ a. not (assigned t product group a)) db.product_modifier_groups
          (All_everywhere _
            (λ a e. first (a.tenant_id == t) (a.product_id == product) (
              first (of_product t product a) (a.modifier_group_id == group)
                (not-false (assigned t product group a) e)))
            db.product_modifier_groups);
  }

  -- A request on categories, modifier groups, options, products or assignments that succeeds
  -- leaves the rows that other tenants have in those five tables as they are, if the ids of
  -- categories and of options are unique.
  pub serve-IsIsolated :
      (q : CatalogRequest) (db db' : Db)
      → HasKeys db
      → serve u q db ≡ ok db'
      → IsIsolated u.tenant_id db db'
  serve-IsIsolated q db db' k h = CatalogStep-IsIsolated (serve-CatalogStep u q db db' h) k
