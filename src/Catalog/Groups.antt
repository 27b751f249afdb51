-- ===== src/Catalog/Groups.antt =====
-- src/modifier-groups/modifier-groups.service.ts, with the requests of its dto folder.
use kasirk_backend.Base.{
  ℕ, suc, ◌&&◌, not, Bool, true, false, List, [], ◌∷◌, ◌++◌, map, Option, none, some, ◌==◌, leb,
  find, select, any, update,
}
use kasirk_backend.Base.Sort.{sort, list_eq}
use kasirk_backend.Base.Text.{Text}
use kasirk_backend.Common.Errors.{
  conflict, not_found, modifier_group_not_found, modifier_option_not_found,
  modifier_group_name_exists, modifier_option_name_exists, tenant_id, Column, other_column,
}
use kasirk_backend.Database.Rows.{Db, ModifierGroup, ModifierOption}
use kasirk_backend.Database.Client.{Tx, ◌>>=◌, ◌>>◌, gets, or_raise}
use kasirk_backend.Transactions.Dto.{get_or}
use kasirk_backend.Catalog.Tables.{
  CatalogUser, insert, change, unless_taken, catching, rethrow_unique,
  uq_modifier_groups_tenant_name, uq_modifier_options_tenant_group_name,
}

pub record CreateModifierGroupDto : Type 0 where
  pub name : Text
  pub is_active : Option Bool
  pub display_order : Option ℕ

pub record UpdateModifierGroupDto : Type 0 where
  pub name : Option Text
  pub is_active : Option Bool
  pub display_order : Option ℕ

pub record CreateModifierOptionDto : Type 0 where
  pub name : Text
  pub price_delta : ℕ
  pub is_active : Option Bool
  pub display_order : Option ℕ

pub record UpdateModifierOptionDto : Type 0 where
  pub name : Option Text
  pub price_delta : Option ℕ
  pub is_active : Option Bool
  pub display_order : Option ℕ

-- A group with `include: { options }`.
pub record GroupView : Type 0 where
  pub group : ModifierGroup
  pub options : List ModifierOption

abbrev pub option_of : ModifierGroup → ModifierOption → Bool
option_of g o = o.modifier_group_id == g.id && o.tenant_id == g.tenant_id

unfoldable pub with_options : Db → ModifierGroup → GroupView
unfolding sort
with_options db g = record {
  group = g;
  options =
      sort (λ a b. leb a.display_order b.display_order) (select (option_of g) db.modifier_options);
}

-- `findAll`
unfoldable pub find_all_groups : CatalogUser → Db → List GroupView
unfolding with_options sort
find_all_groups user db = map (with_options db) (
    sort (λ a b. leb a.display_order b.display_order)
      (select (λ g. g.tenant_id == user.tenant_id) db.modifier_groups))

abbrev pub own_group : ℕ → ℕ → ModifierGroup → Bool
own_group tenant id g = g.id == id && g.tenant_id == tenant

-- `findOne`, and `validateGroupOwnership`.
unfoldable pub find_group : ℕ → ℕ → Tx ModifierGroup
find_group tenant id = do
  rows ← gets (λ db. db.modifier_groups)
  or_raise (find (own_group tenant id) rows) (not_found modifier_group_not_found)

-- The columns `name` and `modifier_group_id`.
abbrev name_column : Column
name_column = other_column 0

abbrev group_column : Column
group_column = other_column 1

-- `rethrowGroupWriteError` and `rethrowOptionWriteError`.
abbrev group_name_exists : {A : Type 0} → Tx A → Tx A
group_name_exists = catching (
    rethrow_unique uq_modifier_groups_tenant_name (tenant_id ∷ name_column ∷ [])
      (conflict modifier_group_name_exists))

abbrev option_name_exists : {A : Type 0} → Tx A → Tx A
option_name_exists = catching (
    rethrow_unique uq_modifier_options_tenant_group_name
      (tenant_id ∷ group_column ∷ name_column ∷ []) (conflict modifier_option_name_exists))

unfoldable pub same_group_name : ℕ → Text → ModifierGroup → Bool
unfolding list_eq
same_group_name tenant name g = g.tenant_id == tenant && list_eq g.name name

unfoldable pub new_group : ℕ → CreateModifierGroupDto → Db → ModifierGroup
new_group tenant dto db = record {
  id = db.next_id;
  tenant_id = tenant;
  name = dto.name;
  is_active = get_or dto.is_active true;
  display_order = get_or dto.display_order 0;
}

abbrev pub add_group : ModifierGroup → Db → Db
add_group row db = record db {
  modifier_groups = db.modifier_groups ++ row ∷ [];
  next_id = suc db.next_id;
}

unfoldable pub insert_group : ℕ → CreateModifierGroupDto → Tx ModifierGroup
unfolding new_group same_group_name
insert_group tenant dto db =
    unless_taken uq_modifier_groups_tenant_name
      (any (same_group_name tenant dto.name) db.modifier_groups)
      (insert (new_group tenant dto) add_group) db

-- `create`
unfoldable pub create_group : CatalogUser → CreateModifierGroupDto → Tx ModifierGroup
unfolding insert_group rethrow_unique unless_taken
create_group user dto = group_name_exists (insert_group user.tenant_id dto)

-- `if (dto.x !== undefined) data.x = dto.x`, for the fields of a group.
unfoldable pub patch_group : UpdateModifierGroupDto → ModifierGroup → ModifierGroup
patch_group dto g = record g {
  name = get_or dto.name g.name;
  is_active = get_or dto.is_active g.is_active;
  display_order = get_or dto.display_order g.display_order;
}

abbrev pub set_group : ℕ → ℕ → (ModifierGroup → ModifierGroup) → Db → Db
set_group tenant id f db = record db {
  modifier_groups = update (own_group tenant id) f db.modifier_groups;
}

-- Prisma's `update` of a group.
unfoldable pub write_group : ℕ → ℕ → (ModifierGroup → ModifierGroup) → Tx ModifierGroup
write_group tenant id f =
    change (set_group tenant id f) (λ d. find (own_group tenant id) d.modifier_groups)

-- Another group of the tenant has the name that the request gives, if it gives one.
unfoldable pub group_name_taken : ℕ → ℕ → Option Text → Db → Bool
unfolding same_group_name
group_name_taken tenant id none db = false
group_name_taken tenant id (some name) db =
    any (λ g. not (g.id == id) && same_group_name tenant name g) db.modifier_groups

unfoldable pub rewrite_group : ℕ → ℕ → UpdateModifierGroupDto → Tx ModifierGroup
unfolding patch_group write_group group_name_taken
rewrite_group tenant id dto db =
    unless_taken uq_modifier_groups_tenant_name (group_name_taken tenant id dto.name db)
      (write_group tenant id (patch_group dto)) db

-- `update`
unfoldable pub update_group : CatalogUser → ℕ → UpdateModifierGroupDto → Tx ModifierGroup
unfolding find_group rewrite_group rethrow_unique unless_taken
update_group user id dto = do
  find_group user.tenant_id id
  group_name_exists (rewrite_group user.tenant_id id dto)

abbrev pub retire_group : ModifierGroup → ModifierGroup
retire_group g = record g { is_active = false }

-- `remove`
unfoldable pub remove_group : CatalogUser → ℕ → Tx ModifierGroup
unfolding find_group write_group
remove_group user id = do find_group user.tenant_id id; write_group user.tenant_id id retire_group

unfoldable pub same_option_name : ℕ → ℕ → Text → ModifierOption → Bool
unfolding list_eq
same_option_name tenant group name o =
    o.tenant_id == tenant && o.modifier_group_id == group && list_eq o.name name

unfoldable pub new_option : ℕ → ℕ → CreateModifierOptionDto → Db → ModifierOption
new_option tenant group dto db = record {
  id = db.next_id;
  tenant_id = tenant;
  modifier_group_id = group;
  name = dto.name;
  price_delta = dto.price_delta;
  is_active = get_or dto.is_active true;
  display_order = get_or dto.display_order 0;
}

abbrev pub add_option : ModifierOption → Db → Db
add_option row db = record db {
  modifier_options = db.modifier_options ++ row ∷ [];
  next_id = suc db.next_id;
}

unfoldable pub insert_option : ℕ → ℕ → CreateModifierOptionDto → Tx ModifierOption
unfolding new_option same_option_name
insert_option tenant group dto db =
    unless_taken uq_modifier_options_tenant_group_name
      (any (same_option_name tenant group dto.name) db.modifier_options)
      (insert (new_option tenant group dto) add_option) db

-- `createOption`
unfoldable pub create_option : CatalogUser → ℕ → CreateModifierOptionDto → Tx ModifierOption
unfolding find_group insert_option rethrow_unique unless_taken
create_option user group dto = do
  find_group user.tenant_id group
  option_name_exists (insert_option user.tenant_id group dto)

abbrev pub own_option : ℕ → ℕ → ℕ → ModifierOption → Bool
own_option tenant group id o = o.id == id && o.modifier_group_id == group && o.tenant_id == tenant

unfoldable pub find_option : ℕ → ℕ → ℕ → Tx ModifierOption
find_option tenant group id = do
  rows ← gets (λ db. db.modifier_options)
  or_raise (find (own_option tenant group id) rows) (not_found modifier_option_not_found)

unfoldable pub patch_option : UpdateModifierOptionDto → ModifierOption → ModifierOption
patch_option dto o = record o {
  name = get_or dto.name o.name;
  price_delta = get_or dto.price_delta o.price_delta;
  is_active = get_or dto.is_active o.is_active;
  display_order = get_or dto.display_order o.display_order;
}

abbrev pub set_option : ℕ → (ModifierOption → ModifierOption) → Db → Db
set_option id f db = record db { modifier_options = update (λ o. o.id == id) f db.modifier_options }

-- Prisma's `update` of an option, by its id alone.
unfoldable pub write_option : ℕ → (ModifierOption → ModifierOption) → Tx ModifierOption
write_option id f = change (set_option id f) (λ d. find (λ o. o.id == id) d.modifier_options)

unfoldable pub option_name_taken : ℕ → ℕ → ℕ → Option Text → Db → Bool
unfolding same_option_name
option_name_taken tenant group id none db = false
option_name_taken tenant group id (some name) db =
    any (λ o. not (o.id == id) && same_option_name tenant group name o) db.modifier_options

unfoldable pub rewrite_option : ℕ → ℕ → ℕ → UpdateModifierOptionDto → Tx ModifierOption
unfolding patch_option write_option option_name_taken
rewrite_option tenant group id dto db =
    unless_taken uq_modifier_options_tenant_group_name
      (option_name_taken tenant group id dto.name db) (write_option id (patch_option dto)) db

-- `updateOption`
unfoldable pub update_option : CatalogUser → ℕ → ℕ → UpdateModifierOptionDto → Tx ModifierOption
unfolding find_option rewrite_option rethrow_unique unless_taken
update_option user group id dto = do
  find_option user.tenant_id group id
  option_name_exists (rewrite_option user.tenant_id group id dto)

abbrev pub retire_option : ModifierOption → ModifierOption
retire_option o = record o { is_active = false }

-- `removeOption`
unfoldable pub remove_option : CatalogUser → ℕ → ℕ → Tx ModifierOption
unfolding find_option write_option
remove_option user group id = do find_option user.tenant_id group id; write_option id retire_option
