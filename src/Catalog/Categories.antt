-- ===== src/Catalog/Categories.antt =====
-- src/categories/categories.service.ts.
use kasirk_backend.Base.{
  ℕ, suc, ◌&&◌, not, Bool, List, [], ◌∷◌, ◌++◌, some, ◌==◌, opt_eq, ltb, find, select, any, update,
  count_where,
}
use kasirk_backend.Base.Sort.{sort, list_eq}
use kasirk_backend.Base.Text.{Text, trim}
use kasirk_backend.Common.Errors.{
  conflict, not_found, category_not_found, category_name_already_exists, category_in_use, tenant_id,
  Column, other_column,
}
use kasirk_backend.Database.Rows.{Db, Category}
use kasirk_backend.Database.Client.{Tx, ◌>>=◌, ◌>>◌, pure, gets, modify, raise_if, or_raise}
use kasirk_backend.Catalog.Tables.{
  CatalogUser, Collation, insert, change, unless_taken, unless_referred, catching, rethrow_unique,
  uq_categories_tenant_name,
}

-- `findAll`
unfoldable pub find_all_categories : Collation → CatalogUser → Db → List Category
unfolding sort
find_all_categories le user db =
    sort (λ a b. le a.name b.name) (select (λ c. c.tenant_id == user.tenant_id) db.categories)

abbrev pub own_category : CatalogUser → ℕ → Category → Bool
own_category user id c = c.id == id && c.tenant_id == user.tenant_id

-- `findOne`
unfoldable pub find_category : CatalogUser → ℕ → Tx Category
find_category user id = do
  rows ← gets (λ db. db.categories)
  or_raise (find (own_category user id) rows) (not_found category_not_found)

-- The column `name`.
abbrev name_column : Column
name_column = other_column 0

-- The columns of the index, and what its violation becomes.
abbrev name_exists : {A : Type 0} → Tx A → Tx A
name_exists = catching (
    rethrow_unique uq_categories_tenant_name (tenant_id ∷ name_column ∷ [])
      (conflict category_name_already_exists))

unfoldable pub same_name : ℕ → Text → Category → Bool
unfolding list_eq
same_name tenant name c = c.tenant_id == tenant && list_eq c.name name

abbrev pub new_category : ℕ → Text → Db → Category
new_category tenant name db = record { id = db.next_id; tenant_id = tenant; name = name }

abbrev pub add_category : Category → Db → Db
add_category row db = record db { categories = db.categories ++ row ∷ []; next_id = suc db.next_id }

unfoldable pub insert_category : ℕ → Text → Tx Category
unfolding same_name
insert_category tenant name db =
    unless_taken uq_categories_tenant_name (any (same_name tenant name) db.categories)
      (insert (new_category tenant name) add_category) db

-- `create`
unfoldable pub create_category : CatalogUser → Text → Tx Category
unfolding insert_category trim rethrow_unique unless_taken
create_category user name = name_exists (insert_category user.tenant_id (trim name))

abbrev pub rename : ℕ → Text → Db → Db
rename id name db = record db {
  categories = update (λ c. c.id == id) (λ c. record c { name = name }) db.categories;
}

-- The update goes by the id alone; another row of the tenant may hold the name.
unfoldable pub rename_category : CatalogUser → ℕ → Text → Tx Category
unfolding same_name
rename_category user id name db =
    unless_taken uq_categories_tenant_name
      (any (λ c. not (c.id == id) && same_name user.tenant_id name c) db.categories)
      (change (rename id name) (λ d. find (λ c. c.id == id) d.categories)) db

-- `update`
unfoldable pub update_category : CatalogUser → ℕ → Text → Tx Category
unfolding find_category rename_category trim rethrow_unique unless_taken
update_category user id name = do
  find_category user id
  name_exists (rename_category user id (trim name))

-- `delete` by the id alone; the products' foreign key restricts it.
unfoldable pub delete_category : ℕ → Tx (Unit {0})
delete_category id db =
    unless_referred (any (λ p. opt_eq p.category_id (some id)) db.products)
      (modify λ d. record d { categories = select (λ c. not (c.id == id)) d.categories }) db

-- `remove`
unfoldable pub remove_category : CatalogUser → ℕ → Tx Category
unfolding find_category delete_category unless_referred
remove_category user id = do
  category ← find_category user id
  in_use ← gets (λ db.
      count_where (λ p. p.tenant_id == user.tenant_id && opt_eq p.category_id (some id))
        db.products)
  raise_if (ltb 0 in_use) (conflict category_in_use)
  delete_category id
  pure category
