-- ===== src/Catalog/Assignments.antt =====
-- The modifier groups of a product in src/products/products.service.ts.
use kasirk_backend.Base.{
  ℕ, ◌&&◌, not, Bool, List, [], ◌∷◌, ◌++◌, map, Option, none, some, if◌then◌else◌, ◌==◌, includes,
  leb, length, find, select, any, update,
}
use kasirk_backend.Base.Sort.{sort}
use kasirk_backend.Base.Text.{Text, Uuid, lower_case}
use kasirk_backend.Common.Errors
use kasirk_backend.Common.Errors.{
  Result, ok, err, http, conflict, not_found, bad_request, modifier_group_not_found,
  modifier_group_already_assigned, modifier_group_assignment_not_found,
  duplicate_modifier_group_assignment, invalid_modifier_selection_type,
  required_multiple_not_supported, tenant_id, Column, other_column,
}
use kasirk_backend.Database.Rows.{
  Db, ModifierGroup, ModifierOption, ProductModifierGroup, SelectionType, is_single,
}
use kasirk_backend.Database.Client.{Tx, ◌>>=◌, ◌>>◌, pure, gets, modify, raise_if, or_raise, lift}
use kasirk_backend.Transactions.Dto.{all_distinct}
use kasirk_backend.Catalog.Tables.{
  CatalogUser, change, unless_taken, catching, rethrow_unique, product_modifier_groups_pkey,
}
use kasirk_backend.Catalog.Products.{validate_product}

-- `selection_type` is no type for any text but SINGLE and MULTIPLE.
pub record AssignmentDto : Type 0 where
  pub modifier_group_id : Uuid
  pub required : Bool
  pub selection_type : Option SelectionType
  pub display_order : ℕ

-- One text of an id, with its letter case.
abbrev pub same_text : Uuid → Uuid → Bool
same_text a b = a.value == b.value && a.casing == b.casing

-- The two checks of a selection type.
unfoldable pub check_selection : AssignmentDto → Result SelectionType
check_selection a = elim a.selection_type [
  | none ↦ err (http (bad_request invalid_modifier_selection_type))
  | some t ↦
      if a.required && not (is_single t)
      then err (http (bad_request required_multiple_not_supported))
      else ok t
]

-- An assignment that passed them.
pub record Checked : Type 0 where
  pub group : ℕ
  pub required : Bool
  pub selection_type : SelectionType
  pub display_order : ℕ

unfoldable pub check_assignment : AssignmentDto → Result Checked
unfolding check_selection
check_assignment a = Errors.◌>>=◌ (check_selection a) λ t. ok (record {
  group = lower_case a.modifier_group_id;
  required = a.required;
  selection_type = t;
  display_order = a.display_order;
})

-- The loop of `replaceModifierGroups`, with the ids that it has seen.
unfoldable pub check_assignments : List Uuid → List AssignmentDto → Result (List Checked)
unfolding check_assignment
check_assignments seen [] = ok []
check_assignments seen (a ∷ rest) =
    Errors.◌>>◌
      (Errors.raise_if (any (same_text a.modifier_group_id) seen)
        (conflict duplicate_modifier_group_assignment))
      (Errors.◌>>=◌ (check_assignment a)
        λ c. Errors.◌>>=◌ (check_assignments (a.modifier_group_id ∷ seen) rest) λ cs. ok (c ∷ cs))

abbrev pub active_group : ℕ → ℕ → ModifierGroup → Bool
active_group tenant id g = g.tenant_id == tenant && g.id == id && g.is_active

-- The columns of the primary key, and `rethrowAssignmentWriteError`.
abbrev pub product_column : Column
product_column = other_column 3

abbrev pub group_column : Column
group_column = other_column 1

abbrev pub already_assigned : {A : Type 0} → Tx A → Tx A
already_assigned = catching (
    rethrow_unique product_modifier_groups_pkey (tenant_id ∷ product_column ∷ group_column ∷ [])
      (conflict modifier_group_already_assigned))

abbrev pub of_product : ℕ → ℕ → ProductModifierGroup → Bool
of_product tenant product a = a.tenant_id == tenant && a.product_id == product

abbrev pub assigned : ℕ → ℕ → ℕ → ProductModifierGroup → Bool
assigned tenant product group a = of_product tenant product a && a.modifier_group_id == group

unfoldable pub assignment_row : ℕ → ℕ → Checked → ProductModifierGroup
assignment_row tenant product c = record {
  tenant_id = tenant;
  product_id = product;
  modifier_group_id = c.group;
  required = c.required;
  selection_type = c.selection_type;
  display_order = c.display_order;
}

-- What a client sees of an assigned group.
pub record GroupResponse : Type 0 where
  pub id : ℕ
  pub name : Text
  pub required : Bool
  pub selection_type : SelectionType
  pub display_order : ℕ
  pub options : List ModifierOption

abbrev option_le : ModifierOption → ModifierOption → Bool
option_le a b =
    if a.display_order == b.display_order
    then leb a.id b.id
    else leb a.display_order b.display_order

unfoldable pub active_options : Db → ModifierGroup → List ModifierOption
unfolding sort
active_options db g = sort option_le (
    select (λ o. o.modifier_group_id == g.id && o.tenant_id == g.tenant_id && o.is_active)
      db.modifier_options)

unfoldable pub group_response : Db → ProductModifierGroup → ModifierGroup → GroupResponse
unfolding active_options
group_response db a g = record {
  id = g.id;
  name = g.name;
  required = a.required;
  selection_type = a.selection_type;
  display_order = a.display_order;
  options = active_options db g;
}

-- The assignments whose group is active, in the order in which they are given.
unfoldable pub group_responses : Db → List ProductModifierGroup → List GroupResponse
unfolding group_response
group_responses db [] = []
group_responses db (a ∷ rest) =
    elim (find (active_group a.tenant_id a.modifier_group_id) db.modifier_groups) [
      | some g ↦ group_response db a g ∷ group_responses db rest
      | none ↦ group_responses db rest
    ]

-- `orderBy: [{ display_order: 'asc' }, { modifier_group_id: 'asc' }]`
unfoldable pub assignment_le : ProductModifierGroup → ProductModifierGroup → Bool
assignment_le a b =
    if a.display_order == b.display_order
    then leb a.modifier_group_id b.modifier_group_id
    else leb a.display_order b.display_order

unfoldable pub read_assigned : ℕ → ℕ → Db → List GroupResponse
unfolding group_responses assignment_le sort
read_assigned tenant product db =
    group_responses db
      (sort assignment_le (select (of_product tenant product) db.product_modifier_groups))

-- `getModifierGroups`
unfoldable pub get_modifier_groups : CatalogUser → ℕ → Tx (List GroupResponse)
unfolding validate_product read_assigned
get_modifier_groups user product = do
  validate_product user.tenant_id product
  gets (read_assigned user.tenant_id product)

-- `id: { in: groupIds }` among the active groups of the tenant, unless there is no id.
unfoldable pub check_groups : ℕ → List ℕ → Tx (Unit {0})
check_groups tenant [] = pure tt
check_groups tenant (g ∷ gs) = do
  rows ← gets (λ db. db.modifier_groups)
  raise_if
      (not (
        length (select (λ r. r.tenant_id == tenant && includes r.id (g ∷ gs) && r.is_active) rows)
        == length (g ∷ gs)))
      (not_found modifier_group_not_found)

abbrev pub replace_rows :
    ℕ → ℕ → List Checked → List ProductModifierGroup → List ProductModifierGroup
replace_rows tenant product cs rows =
    select (λ a. not (of_product tenant product a)) rows ++ map (assignment_row tenant product) cs

-- `deleteMany` and `createMany` in one transaction.
unfoldable pub write_assignments : ℕ → ℕ → List Checked → Tx (Unit {0})
unfolding assignment_row all_distinct
write_assignments tenant product cs db =
    unless_taken product_modifier_groups_pkey (not (all_distinct (map (λ c. c.group) cs)))
      (modify λ d. record d {
        product_modifier_groups = replace_rows tenant product cs d.product_modifier_groups;
      })
      db

-- `replaceModifierGroups`
unfoldable pub replace_modifier_groups :
    CatalogUser → ℕ → List AssignmentDto → Tx (List GroupResponse)
unfolding validate_product check_assignments check_groups write_assignments get_modifier_groups
    unless_taken
replace_modifier_groups user product dto = do
  validate_product user.tenant_id product
  cs ← lift (check_assignments [] dto)
  check_groups user.tenant_id (map (λ c. c.group) cs)
  write_assignments user.tenant_id product cs
  get_modifier_groups user product

-- The active group that the request names.
unfoldable pub check_group : ℕ → ℕ → Tx (Unit {0})
check_group tenant group = do
  rows ← gets (λ db. db.modifier_groups)
  raise_if (not (any (active_group tenant group) rows)) (not_found modifier_group_not_found)

unfoldable pub insert_assignment : ℕ → ℕ → Checked → Tx ProductModifierGroup
unfolding assignment_row
insert_assignment tenant product c db =
    unless_taken product_modifier_groups_pkey
      (any (assigned tenant product c.group) db.product_modifier_groups)
      (modify (λ d. record d {
        product_modifier_groups = d.product_modifier_groups ++ assignment_row tenant product c ∷ [];
      })
        >> pure (assignment_row tenant product c))
      db

-- `assignModifierGroup`
unfoldable pub assign_modifier_group : CatalogUser → ℕ → AssignmentDto → Tx ProductModifierGroup
unfolding validate_product check_assignment check_group insert_assignment rethrow_unique
    unless_taken
assign_modifier_group user product dto = do
  validate_product user.tenant_id product
  c ← lift (check_assignment dto)
  check_group user.tenant_id c.group
  already_assigned (insert_assignment user.tenant_id product c)

-- The assignment that the path names.
unfoldable pub find_assignment : ℕ → ℕ → ℕ → Tx ProductModifierGroup
find_assignment tenant product group = do
  rows ← gets (λ db. db.product_modifier_groups)
  or_raise (find (assigned tenant product group) rows)
      (not_found modifier_group_assignment_not_found)

-- `if (dto.modifier_group_id !== groupId)`: another group must not be assigned yet.
unfoldable pub check_unassigned : ℕ → ℕ → Bool → ℕ → Tx (Unit {0})
check_unassigned tenant product same new = do
  rows ← gets (λ db. db.product_modifier_groups)
  raise_if (not same && any (assigned tenant product new) rows)
      (conflict modifier_group_already_assigned)

unfoldable pub rewrite_assignment : ℕ → ℕ → ℕ → Checked → Tx ProductModifierGroup
unfolding assignment_row
rewrite_assignment tenant product group c db =
    unless_taken product_modifier_groups_pkey
      (not (c.group == group) && any (assigned tenant product c.group) db.product_modifier_groups)
      (change
        (λ d. record d {
          product_modifier_groups =
              update (assigned tenant product group) (λ a. assignment_row tenant product c)
                d.product_modifier_groups;
        })
        (λ d. find (assigned tenant product c.group) d.product_modifier_groups))
      db

-- `updateModifierGroupAssignment`; the ids of the path and of the request are compared as texts.
unfoldable pub update_modifier_group_assignment :
    CatalogUser → ℕ → Uuid → AssignmentDto → Tx ProductModifierGroup
unfolding validate_product check_assignment find_assignment check_group check_unassigned
    rewrite_assignment rethrow_unique unless_taken
update_modifier_group_assignment user product group dto = do
  validate_product user.tenant_id product
  c ← lift (check_assignment dto)
  find_assignment user.tenant_id product (lower_case group)
  check_group user.tenant_id c.group
  check_unassigned user.tenant_id product (same_text dto.modifier_group_id group) c.group
  already_assigned (rewrite_assignment user.tenant_id product (lower_case group) c)

-- `removeModifierGroup`
unfoldable pub remove_modifier_group : CatalogUser → ℕ → ℕ → Tx ProductModifierGroup
unfolding validate_product find_assignment
remove_modifier_group user product group = do
  validate_product user.tenant_id product
  a ← find_assignment user.tenant_id product group
  modify λ d. record d {
    product_modifier_groups =
        select (λ r. not (assigned user.tenant_id product group r)) d.product_modifier_groups;
  }
  pure a
