-- ===== src/Catalog/Requests/Groups.antt =====
-- The steps that the requests on categories, modifier groups and options make.
use kasirk_backend.Base.{
  ℕ, ◌≡◌, refl, ◌&&◌, not, Option, none, some, ◌==◌, opt_eq, find, any, ltb, count_where,
}
use kasirk_backend.Base.Text.{Text, trim}
use kasirk_backend.Common.Errors.{ok, HttpException, conflict, category_in_use}
use kasirk_backend.Database.Rows.{Db, Category, ModifierGroup, ModifierOption}
use kasirk_backend.Database.Client.{◌>>=◌, pure, gets, or_raise}
use kasirk_backend.Catalog.Tables.{
  CatalogUser, insert, change, uq_categories_tenant_name, uq_modifier_groups_tenant_name,
  uq_modifier_options_tenant_group_name,
}
use kasirk_backend.Catalog.Categories.{
  own_category, new_category, add_category, rename, find_category, insert_category, create_category,
  same_name, rename_category, update_category, delete_category, remove_category,
}
use kasirk_backend.Catalog.Groups.{
  CreateModifierGroupDto, UpdateModifierGroupDto, CreateModifierOptionDto, UpdateModifierOptionDto,
  own_group, same_group_name, same_option_name, group_name_taken, option_name_taken, new_group,
  add_group, set_group, new_option, add_option, own_option, set_option, find_group, insert_group,
  create_group, patch_group, write_group, rewrite_group, update_group, retire_group, remove_group,
  insert_option, create_option, find_option, patch_option, write_option, rewrite_option,
  update_option, retire_option, remove_option,
}
use kasirk_backend.Catalog.Steps.{
  category_added, category_renamed, category_deleted, group_added, group_set, option_added,
  option_set, delete_rows, SameGroup, SameOption, Steps-guard, Steps, Reads, Steps-read,
  Steps-catching, Steps-unless_taken, Steps-unless_referred, Steps-insert, Steps-change, Reads-gets,
  Reads-or_raise, Reads-bind,
}

pub or_raise-some :
    {A : Type 0} (o : Option A) (e : HttpException) (db : Db) (a : A) (db' : Db)
    → or_raise o e db ≡ ok (a, db')
    → o ≡ some a
or_raise-some none e db a db' h = cc
or_raise-some (some x) e db a db' h = cc

module _ (user : CatalogUser) where
  find_category-Reads : (id : ℕ) → Reads user (find_category user id)
  unfolding find_category
  find_category-Reads id =
      Reads-bind user (gets (λ db. db.categories)) _ (Reads-gets user (λ db. db.categories))
        (λ rows. Reads-or_raise user (find (own_category user id) rows) _)

  find_category-found :
      (id : ℕ) (db : Db) (c : Category)
      → find_category user id db ≡ ok (c, db)
      → find (own_category user id) db.categories ≡ some c
  unfolding find_category
  find_category-found id db c h =
      or_raise-some (find (own_category user id) db.categories) _ db c db h

  insert_category-Steps :
      (name : Text) (db : Db) → Steps user (insert_category user.tenant_id name) db
  unfolding insert_category
  insert_category-Steps name db =
      Steps-unless_taken user uq_categories_tenant_name
        (any (same_name user.tenant_id name) db.categories)
        (insert (new_category user.tenant_id name) add_category) db
        (Steps-insert user (new_category user.tenant_id name) add_category db
          (category_added db name))

  pub create_category-Steps : (name : Text) (db : Db) → Steps user (create_category user name) db
  unfolding create_category
  create_category-Steps name db =
      Steps-catching user _ (insert_category user.tenant_id (trim name)) db
        (insert_category-Steps (trim name) db)

  rename_category-Steps :
      (id : ℕ) (name : Text) (c : Category) (db : Db)
      → find (own_category user id) db.categories ≡ some c
      → Steps user (rename_category user id name) db
  unfolding rename_category
  rename_category-Steps id name c db found =
      let row = λ (d : Db). find (λ c. c.id == id) d.categories in
      Steps-unless_taken user uq_categories_tenant_name
        (any (λ c. not (c.id == id) && same_name user.tenant_id name c) db.categories)
        (change (rename id name) row) db
        (Steps-change user (rename id name) row db (category_renamed db id name c found))

  pub update_category-Steps :
      (id : ℕ) (name : Text) (db : Db) → Steps user (update_category user id name) db
  unfolding update_category
  update_category-Steps id name db =
      Steps-read user (find_category user id) _ db (find_category-Reads id) λ c found.
        Steps-catching user _ (rename_category user id (trim name)) db
          (rename_category-Steps id (trim name) c db (find_category-found id db c found))

  delete_category-Steps :
      (id : ℕ) (c : Category) (db : Db)
      → find (own_category user id) db.categories ≡ some c
      → Steps user (delete_category id >>= λ _. pure c) db
  unfolding delete_category
  delete_category-Steps id c db found =
      Steps-unless_referred user (any (λ p. opt_eq p.category_id (some id)) db.products)
        (delete_rows id) c db (category_deleted db id c found)

  pub remove_category-Steps : (id : ℕ) (db : Db) → Steps user (remove_category user id) db
  unfolding remove_category
  remove_category-Steps id db =
      Steps-read user (find_category user id) _ db (find_category-Reads id) λ c found.
        let uses =
          count_where (λ p. p.tenant_id == user.tenant_id && opt_eq p.category_id (some id))
            db.products in
        Steps-guard user (ltb 0 uses) (conflict category_in_use)
          (delete_category id >>= λ _. pure c) db
          λ _. delete_category-Steps id c db (find_category-found id db c found)

  find_group-Reads : (id : ℕ) → Reads user (find_group user.tenant_id id)
  unfolding find_group
  find_group-Reads id =
      Reads-bind user (gets (λ db. db.modifier_groups)) _
        (Reads-gets user (λ db. db.modifier_groups))
        (λ rows. Reads-or_raise user (find (own_group user.tenant_id id) rows) _)

  insert_group-Steps :
      (dto : CreateModifierGroupDto) (db : Db) → Steps user (insert_group user.tenant_id dto) db
  unfolding insert_group
  insert_group-Steps dto db =
      Steps-unless_taken user uq_modifier_groups_tenant_name
        (any (same_group_name user.tenant_id dto.name) db.modifier_groups)
        (insert (new_group user.tenant_id dto) add_group) db
        (Steps-insert user (new_group user.tenant_id dto) add_group db (group_added db dto))

  pub create_group-Steps :
      (dto : CreateModifierGroupDto) (db : Db) → Steps user (create_group user dto) db
  unfolding create_group
  create_group-Steps dto db =
      Steps-catching user _ (insert_group user.tenant_id dto) db (insert_group-Steps dto db)

  write_group-Steps :
      (id : ℕ) (f : ModifierGroup → ModifierGroup) (db : Db)
      → SameGroup f
      → Steps user (write_group user.tenant_id id f) db
  unfolding write_group
  write_group-Steps id f db same =
      Steps-change user (set_group user.tenant_id id f)
        (λ d. find (own_group user.tenant_id id) d.modifier_groups) db (group_set db id f same)

  patch_group-SameGroup : (dto : UpdateModifierGroupDto) → SameGroup (patch_group dto)
  unfolding patch_group
  patch_group-SameGroup dto g = (refl, refl)

  rewrite_group-Steps :
      (id : ℕ) (dto : UpdateModifierGroupDto) (db : Db)
      → Steps user (rewrite_group user.tenant_id id dto) db
  unfolding rewrite_group
  rewrite_group-Steps id dto db =
      Steps-unless_taken user uq_modifier_groups_tenant_name
        (group_name_taken user.tenant_id id dto.name db)
        (write_group user.tenant_id id (patch_group dto)) db
        (write_group-Steps id (patch_group dto) db (patch_group-SameGroup dto))

  pub update_group-Steps :
      (id : ℕ) (dto : UpdateModifierGroupDto) (db : Db) → Steps user (update_group user id dto) db
  unfolding update_group
  update_group-Steps id dto db =
      Steps-read user (find_group user.tenant_id id) _ db (find_group-Reads id) λ g _.
        Steps-catching user _ (rewrite_group user.tenant_id id dto) db
          (rewrite_group-Steps id dto db)

  pub remove_group-Steps : (id : ℕ) (db : Db) → Steps user (remove_group user id) db
  unfolding remove_group
  remove_group-Steps id db =
      Steps-read user (find_group user.tenant_id id) _ db (find_group-Reads id)
        λ g _. write_group-Steps id retire_group db (λ g. (refl, refl))

  insert_option-Steps :
      (group : ℕ) (dto : CreateModifierOptionDto) (db : Db)
      → Steps user (insert_option user.tenant_id group dto) db
  unfolding insert_option
  insert_option-Steps group dto db =
      Steps-unless_taken user uq_modifier_options_tenant_group_name
        (any (same_option_name user.tenant_id group dto.name) db.modifier_options)
        (insert (new_option user.tenant_id group dto) add_option) db
        (Steps-insert user (new_option user.tenant_id group dto) add_option db
          (option_added db group dto))

  pub create_option-Steps :
      (group : ℕ) (dto : CreateModifierOptionDto) (db : Db)
      → Steps user (create_option user group dto) db
  unfolding create_option
  create_option-Steps group dto db =
      Steps-read user (find_group user.tenant_id group) _ db (find_group-Reads group) λ g _.
        Steps-catching user _ (insert_option user.tenant_id group dto) db
          (insert_option-Steps group dto db)

  find_option-Reads : (group id : ℕ) → Reads user (find_option user.tenant_id group id)
  unfolding find_option
  find_option-Reads group id =
      Reads-bind user (gets (λ db. db.modifier_options)) _
        (Reads-gets user (λ db. db.modifier_options))
        (λ rows. Reads-or_raise user (find (own_option user.tenant_id group id) rows) _)

  find_option-found :
      (group id : ℕ) (db : Db) (o : ModifierOption)
      → find_option user.tenant_id group id db ≡ ok (o, db)
      → find (own_option user.tenant_id group id) db.modifier_options ≡ some o
  unfolding find_option
  find_option-found group id db o h =
      or_raise-some (find (own_option user.tenant_id group id) db.modifier_options) _ db o db h

  write_option-Steps :
      (group id : ℕ) (f : ModifierOption → ModifierOption) (o : ModifierOption) (db : Db)
      → SameOption f
      → find (own_option user.tenant_id group id) db.modifier_options ≡ some o
      → Steps user (write_option id f) db
  unfolding write_option
  write_option-Steps group id f o db same found =
      Steps-change user (set_option id f) (λ d. find (λ o. o.id == id) d.modifier_options) db
        (option_set db group id f o same found)

  patch_option-SameOption : (dto : UpdateModifierOptionDto) → SameOption (patch_option dto)
  unfolding patch_option
  patch_option-SameOption dto o = (refl, refl)

  rewrite_option-Steps :
      (group id : ℕ) (dto : UpdateModifierOptionDto) (o : ModifierOption) (db : Db)
      → find (own_option user.tenant_id group id) db.modifier_options ≡ some o
      → Steps user (rewrite_option user.tenant_id group id dto) db
  unfolding rewrite_option
  rewrite_option-Steps group id dto o db found =
      Steps-unless_taken user uq_modifier_options_tenant_group_name
        (option_name_taken user.tenant_id group id dto.name db) (write_option id (patch_option dto))
        db (write_option-Steps group id (patch_option dto) o db (patch_option-SameOption dto) found)

  pub update_option-Steps :
      (group id : ℕ) (dto : UpdateModifierOptionDto) (db : Db)
      → Steps user (update_option user group id dto) db
  unfolding update_option
  update_option-Steps group id dto db =
      Steps-read user (find_option user.tenant_id group id) _ db (find_option-Reads group id)
        λ o found.
          Steps-catching user _ (rewrite_option user.tenant_id group id dto) db
            (rewrite_option-Steps group id dto o db (find_option-found group id db o found))

  pub remove_option-Steps : (group id : ℕ) (db : Db) → Steps user (remove_option user group id) db
  unfolding remove_option
  remove_option-Steps group id db =
      Steps-read user (find_option user.tenant_id group id) _ db (find_option-Reads group id)
        λ o found.
          write_option-Steps group id retire_option o db (λ x. (refl, refl))
            (find_option-found group id db o found)
