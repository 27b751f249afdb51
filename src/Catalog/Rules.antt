-- ===== src/Catalog/Rules.antt =====
-- What every stored product and every stored assignment obeys.
use kasirk_backend.Base.{
  ℕ, ◌≡◌, refl, subst, Bool, true, false, ◌&&◌, not, List, [], ◌∷◌, ◌++◌, map, Option, none, some,
  arith, if◌then◌else◌, ◌==◌, opt_eq, any, select, update, All, All-append, All_mono,
}
use kasirk_backend.Common.Errors.{ok}
use kasirk_backend.Database.Rows.{Db, Category, Product, ProductModifierGroup, is_single}
use kasirk_backend.Transactions.Dto.{get_or}
use kasirk_backend.Catalog.Tables.{CatalogUser}
use kasirk_backend.Catalog.Categories.{new_category}
use kasirk_backend.Catalog.Products.{new_product, own_product, patch_product}
use kasirk_backend.Catalog.Assignments.{Checked, of_product, assigned, assignment_row}
use kasirk_backend.Catalog.Steps.{
  CatalogStep, unchanged, category_added, category_renamed, category_deleted, group_added,
  group_set, option_added, option_set, product_added, product_set, assignments_replaced,
  assignment_added, assignment_set, assignment_removed, IsCategory, IsPatch, IsSupported,
}
use kasirk_backend.Catalog.Requests.{CatalogRequest, serve, serve-CatalogStep}

-- No group that is required takes several options.
abbrev pub IsSupportedRow : ProductModifierGroup → Type 0
IsSupportedRow a = (a.required && not (is_single a.selection_type)) ≡ false

abbrev pub has_category : ℕ → ℕ → List Category → Bool
has_category tenant id = any (λ c. c.id == id && c.tenant_id == tenant)

-- A product is in no category, or in one of its tenant.
abbrev pub IsInCategory : ℕ → Option ℕ → List Category → Type 0
IsInCategory tenant none cs = Unit
IsInCategory tenant (some id) cs = has_category tenant id cs ≡ true

pub record IsSound (db : Db) : Type 0 where
  pub supported : All IsSupportedRow db.product_modifier_groups
  pub categorized : All (λ p. IsInCategory p.tenant_id p.category_id db.categories) db.products

module _ {A : Type 0} where
  All-update :
      (P : A → Type 0) (q : A → Bool) (f : A → A) (xs : List A)
      → ((x : A) → q x ≡ true → P x → P (f x))
      → All P xs
      → All P (update q f xs)
  All-update P q f [] k h = tt
  All-update P q f (x ∷ xs) k (h, hs) = (at (q x) refl, All-update P q f xs k hs)
    where
      at : (t : Bool) → q x ≡ t → P (if t then f x else x)
      at true e = k x e h
      at false e = h

  All-select : (P : A → Type 0) (q : A → Bool) (xs : List A) → All P xs → All P (select q xs)
  All-select P q [] h = tt
  All-select P q (x ∷ xs) (h, hs) = at (q x) (All-select P q xs hs)
    where
      at : (t : Bool) → All P (select q xs) → All P (if t then x ∷ select q xs else select q xs)
      at true rest = (h, rest)
      at false rest = rest

  any-append : (p : A → Bool) (xs ys : List A) → any p xs ≡ true → any p (xs ++ ys) ≡ true
  any-append p [] ys h = cc
  any-append p (x ∷ xs) ys h = ground (arith, any-append p xs ys)

  any-update :
      (p q : A → Bool) (f : A → A) (xs : List A)
      → ((x : A) → p (f x) ≡ p x)
      → any p xs ≡ true
      → any p (update q f xs) ≡ true
  any-update p q f [] same h = cc
  any-update p q f (x ∷ xs) same h = ground (arith, same x, any-update p q f xs same)

  none_of : (p : A → Bool) (xs : List A) → any p xs ≡ false → All (λ x. p x ≡ false) xs
  none_of p [] h = tt
  none_of p (x ∷ xs) h = (ground arith, none_of p xs (ground arith))

  All-both :
      (P Q R : A → Type 0) (xs : List A)
      → ((x : A) → P x → Q x → R x)
      → All P xs
      → All Q xs
      → All R xs
  All-both P Q R [] k h h' = tt
  All-both P Q R (x ∷ xs) k (h, hs) (h', hs') = (k x h h', All-both P Q R xs k hs hs')

-- A category that is looked for stays, if it is not the one that is deleted.
has_category-select :
    (tenant id gone : ℕ) (cs : List Category)
    → (id == gone) ≡ false
    → has_category tenant id cs ≡ true
    → has_category tenant id (select (λ c. not (c.id == gone)) cs) ≡ true
has_category-select tenant id gone [] other h = cc
has_category-select tenant id gone (c ∷ cs) other h =
    ground (arith, has_category-select tenant id gone cs other)

module _ (tenant : ℕ) where
  IsInCategory-append :
      (o : Option ℕ) (cs ds : List Category)
      → IsInCategory tenant o cs
      → IsInCategory tenant o (cs ++ ds)
  IsInCategory-append none cs ds h = tt
  IsInCategory-append (some id) cs ds h = any-append _ cs ds h

  IsInCategory-rename :
      (o : Option ℕ) (q : Category → Bool) (f : Category → Category) (cs : List Category)
      → ((c : Category) → ((f c).id ≡ c.id) × ((f c).tenant_id ≡ c.tenant_id))
      → IsInCategory tenant o cs
      → IsInCategory tenant o (update q f cs)
  IsInCategory-rename none q f cs same h = tt
  IsInCategory-rename (some id) q f cs same h =
      any-update (λ c. c.id == id && c.tenant_id == tenant) q f cs (λ c. ground (arith, same c)) h

  IsInCategory-delete :
      (o : Option ℕ) (gone : ℕ) (cs : List Category)
      → opt_eq o (some gone) ≡ false
      → IsInCategory tenant o cs
      → IsInCategory tenant o (select (λ c. not (c.id == gone)) cs)
  IsInCategory-delete none gone cs other h = tt
  IsInCategory-delete (some id) gone cs other h = has_category-select tenant id gone cs other h

rows_supported :
    (tenant product : ℕ) (cs : List Checked)
    → All IsSupported cs
    → All IsSupportedRow (map (assignment_row tenant product) cs)
unfolding assignment_row
rows_supported tenant product [] h = tt
rows_supported tenant product (c ∷ cs) (h, hs) = (h, rows_supported tenant product cs hs)

row_supported :
    (tenant product : ℕ) (c : Checked)
    → IsSupported c
    → IsSupportedRow (assignment_row tenant product c)
unfolding assignment_row
row_supported tenant product c h = h

module _ (u : CatalogUser) where
  in_category :
      (o : Option ℕ) (db : Db) → IsCategory u o db → IsInCategory u.tenant_id o db.categories
  in_category none db h = tt
  in_category (some id) db h = h

  patched :
      (dto : Option (Option ℕ)) (p : Product) (db : Db)
      → own_product u.tenant_id p.id p ≡ true
      → IsPatch u dto db
      → IsInCategory p.tenant_id p.category_id db.categories
      → IsInCategory p.tenant_id (get_or dto p.category_id) db.categories
  patched none p db own valid h = h
  patched (some c) p db own valid h =
      subst (λ (t : ℕ). IsInCategory t c db.categories) (ground arith) (in_category c db valid)

  CatalogStep-IsSound : {db db' : Db} → CatalogStep u db db' → IsSound db → IsSound db'
  unfolding new_product patch_product
  CatalogStep-IsSound (unchanged db) s = s
  CatalogStep-IsSound (category_added db name) s = record {
    supported = s.supported;
    categorized =
        All_mono _ _
          (λ (p : Product) h.
            IsInCategory-append p.tenant_id p.category_id db.categories
              (new_category u.tenant_id name db ∷ []) h)
          db.products s.categorized;
  }
  CatalogStep-IsSound (category_renamed db id name c found) s = record {
    supported = s.supported;
    categorized =
        All_mono _ _
          (λ (p : Product) h.
            IsInCategory-rename p.tenant_id p.category_id (λ x. x.id == id)
              (λ x. record x { name = name }) db.categories (λ x. (refl, refl)) h)
          db.products s.categorized;
  }
  CatalogStep-IsSound (category_deleted db id c found free) s = record {
    supported = s.supported;
    categorized =
        All-both (λ (p : Product). opt_eq p.category_id (some id) ≡ false) _ _ db.products
          (λ p other h. IsInCategory-delete p.tenant_id p.category_id id db.categories other h)
          (none_of (λ p. opt_eq p.category_id (some id)) db.products free) s.categorized;
  }
  CatalogStep-IsSound (group_added db dto) s = record {
    supported = s.supported;
    categorized = s.categorized;
  }
  CatalogStep-IsSound (group_set db id f keeps) s = record {
    supported = s.supported;
    categorized = s.categorized;
  }
  CatalogStep-IsSound (option_added db group dto) s = record {
    supported = s.supported;
    categorized = s.categorized;
  }
  CatalogStep-IsSound (option_set db group id f o keeps found) s = record {
    supported = s.supported;
    categorized = s.categorized;
  }
  CatalogStep-IsSound (product_added db dto valid) s = record {
    supported = s.supported;
    categorized =
        All-append _ db.products (new_product u.tenant_id dto db ∷ []) s.categorized
          (in_category dto.category_id db valid, tt);
  }
  CatalogStep-IsSound (product_set db id dto valid) s = record {
    supported = s.supported;
    categorized =
        All-update (λ (p : Product). IsInCategory p.tenant_id p.category_id db.categories)
          (own_product u.tenant_id id) (patch_product dto) db.products
          (λ p own h. patched dto.category_id p db (ground arith) valid h) s.categorized;
  }
  CatalogStep-IsSound (assignments_replaced db product cs good) s = record {
    supported =
        All-append IsSupportedRow
          (select (λ a. not (of_product u.tenant_id product a)) db.product_modifier_groups)
          (map (assignment_row u.tenant_id product) cs)
          (All-select IsSupportedRow (λ a. not (of_product u.tenant_id product a))
            db.product_modifier_groups s.supported)
          (rows_supported u.tenant_id product cs good);
    categorized = s.categorized;
  }
  CatalogStep-IsSound (assignment_added db product c good) s = record {
    supported =
        All-append IsSupportedRow db.product_modifier_groups
          (assignment_row u.tenant_id product c ∷ []) s.supported
          (row_supported u.tenant_id product c good, tt);
    categorized = s.categorized;
  }
  CatalogStep-IsSound (assignment_set db product group c good) s = record {
    supported =
        All-update IsSupportedRow (assigned u.tenant_id product group)
          (λ a. assignment_row u.tenant_id product c) db.product_modifier_groups
          (λ a _ _. row_supported u.tenant_id product c good) s.supported;
    categorized = s.categorized;
  }
  CatalogStep-IsSound (assignment_removed db product group) s = record {
    supported =
        All-select IsSupportedRow (λ a. not (assigned u.tenant_id product group a))
          db.product_modifier_groups s.supported;
    categorized = s.categorized;
  }

  -- If no stored assignment is both required and MULTIPLE, and every product is in no category or
  -- in one of its tenant, the same holds after a catalog request that succeeds.
  pub serve-IsSound :
      (q : CatalogRequest) (db db' : Db) → IsSound db → serve u q db ≡ ok db' → IsSound db'
  serve-IsSound q db db' s h = CatalogStep-IsSound (serve-CatalogStep u q db db' h) s
