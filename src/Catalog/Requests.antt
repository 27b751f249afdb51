-- ===== src/Catalog/Requests.antt =====
-- The requests of the catalog, and the step that each of them makes.
pub mod Groups
pub mod Products
pub mod Assignments
use kasirk_backend.Base.{ℕ, ◌≡◌, refl, subst, List}
use kasirk_backend.Base.Text.{Text, Uuid}
use kasirk_backend.Common.Errors.{Result, ok, err, Failure, ok-inj}
use kasirk_backend.Database.Rows.{Db}
use kasirk_backend.Database.Client.{Tx}
use kasirk_backend.Catalog.Tables.{CatalogUser}
use kasirk_backend.Catalog.Categories.{create_category, update_category, remove_category}
use kasirk_backend.Catalog.Groups.{
  CreateModifierGroupDto, UpdateModifierGroupDto, CreateModifierOptionDto, UpdateModifierOptionDto,
  create_group, update_group, remove_group, create_option, update_option, remove_option,
}
use kasirk_backend.Catalog.Products.{
  CreateProductDto, UpdateProductDto, create_product, update_product,
}
use kasirk_backend.Catalog.Assignments.{
  AssignmentDto, replace_modifier_groups, assign_modifier_group, update_modifier_group_assignment,
  remove_modifier_group,
}
use kasirk_backend.Catalog.Steps.{CatalogStep, Steps}
use kasirk_backend.Catalog.Requests.Groups.{
  create_category-Steps, update_category-Steps, remove_category-Steps, create_group-Steps,
  update_group-Steps, remove_group-Steps, create_option-Steps, update_option-Steps,
  remove_option-Steps,
}
use kasirk_backend.Catalog.Requests.Products.{create_product-Steps, update_product-Steps}
use kasirk_backend.Catalog.Requests.Assignments.{
  replace_modifier_groups-Steps, assign_modifier_group-Steps,
  update_modifier_group_assignment-Steps, remove_modifier_group-Steps,
}

-- Every request that writes the catalog, with its inputs.
pub data CatalogRequest : Type 0 where
  post_category : Text → CatalogRequest
  patch_category : ℕ → Text → CatalogRequest
  delete_category : ℕ → CatalogRequest
  post_group : CreateModifierGroupDto → CatalogRequest
  patch_group : ℕ → UpdateModifierGroupDto → CatalogRequest
  delete_group : ℕ → CatalogRequest
  post_option : ℕ → CreateModifierOptionDto → CatalogRequest
  patch_option : ℕ → ℕ → UpdateModifierOptionDto → CatalogRequest
  delete_option : ℕ → ℕ → CatalogRequest
  post_product : CreateProductDto → CatalogRequest
  patch_product : ℕ → UpdateProductDto → CatalogRequest
  put_assignments : ℕ → List AssignmentDto → CatalogRequest
  post_assignment : ℕ → AssignmentDto → CatalogRequest
  patch_assignment : ℕ → Uuid → AssignmentDto → CatalogRequest
  delete_assignment : ℕ → ℕ → CatalogRequest

-- The database after an action that succeeds, or its failure.
abbrev pub after : {A : Type 0} → Result (A × Db) → Result Db
after (ok (a, db)) = ok db
after (err e) = err e

unfoldable pub serve : CatalogUser → CatalogRequest → Db → Result Db
serve u (post_category name) db = after (create_category u name db)
serve u (patch_category id name) db = after (update_category u id name db)
serve u (delete_category id) db = after (remove_category u id db)
serve u (post_group dto) db = after (create_group u dto db)
serve u (patch_group id dto) db = after (update_group u id dto db)
serve u (delete_group id) db = after (remove_group u id db)
serve u (post_option g dto) db = after (create_option u g dto db)
serve u (patch_option g id dto) db = after (update_option u g id dto db)
serve u (delete_option g id) db = after (remove_option u g id db)
serve u (post_product dto) db = after (create_product u dto db)
serve u (patch_product id dto) db = after (update_product u id dto db)
serve u (put_assignments p dto) db = after (replace_modifier_groups u p dto db)
serve u (post_assignment p dto) db = after (assign_modifier_group u p dto db)
serve u (patch_assignment p g dto) db = after (update_modifier_group_assignment u p g dto db)
serve u (delete_assignment p g) db = after (remove_modifier_group u p g db)

after-Steps :
    {A : Type 0} (u : CatalogUser) (m : Tx A) (db db' : Db)
    → Steps u m db
    → after (m db) ≡ ok db'
    → CatalogStep u db db'
after-Steps {A} u m db db' s h = go (m db) refl h
  where
    go : (r : Result (A × Db)) → m db ≡ r → after r ≡ ok db' → CatalogStep u db db'
    go (ok (a, d)) e k = s a db' (subst (λ x. m db ≡ ok (a, x)) (ok-inj k) e)
    go (err x) e k = cc

-- A request that succeeds makes one step.
pub serve-CatalogStep :
    (u : CatalogUser) (q : CatalogRequest) (db db' : Db)
    → serve u q db ≡ ok db'
    → CatalogStep u db db'
unfolding serve
serve-CatalogStep u (post_category name) db db' h =
    after-Steps u (create_category u name) db db' (create_category-Steps u name db) h
serve-CatalogStep u (patch_category id name) db db' h =
    after-Steps u (update_category u id name) db db' (update_category-Steps u id name db) h
serve-CatalogStep u (delete_category id) db db' h =
    after-Steps u (remove_category u id) db db' (remove_category-Steps u id db) h
serve-CatalogStep u (post_group dto) db db' h =
    after-Steps u (create_group u dto) db db' (create_group-Steps u dto db) h
serve-CatalogStep u (patch_group id dto) db db' h =
    after-Steps u (update_group u id dto) db db' (update_group-Steps u id dto db) h
serve-CatalogStep u (delete_group id) db db' h =
    after-Steps u (remove_group u id) db db' (remove_group-Steps u id db) h
serve-CatalogStep u (post_option g dto) db db' h =
    after-Steps u (create_option u g dto) db db' (create_option-Steps u g dto db) h
serve-CatalogStep u (patch_option g id dto) db db' h =
    after-Steps u (update_option u g id dto) db db' (update_option-Steps u g id dto db) h
serve-CatalogStep u (delete_option g id) db db' h =
    after-Steps u (remove_option u g id) db db' (remove_option-Steps u g id db) h
serve-CatalogStep u (post_product dto) db db' h =
    after-Steps u (create_product u dto) db db' (create_product-Steps u dto db) h
serve-CatalogStep u (patch_product id dto) db db' h =
    after-Steps u (update_product u id dto) db db' (update_product-Steps u id dto db) h
serve-CatalogStep u (put_assignments p dto) db db' h =
    after-Steps u (replace_modifier_groups u p dto) db db'
      (replace_modifier_groups-Steps u p dto db) h
serve-CatalogStep u (post_assignment p dto) db db' h =
    after-Steps u (assign_modifier_group u p dto) db db' (assign_modifier_group-Steps u p dto db) h
serve-CatalogStep u (patch_assignment p g dto) db db' h =
    after-Steps u (update_modifier_group_assignment u p g dto) db db'
      (update_modifier_group_assignment-Steps u p g dto db) h
serve-CatalogStep u (delete_assignment p g) db db' h =
    after-Steps u (remove_modifier_group u p g) db db' (remove_modifier_group-Steps u p g db) h
