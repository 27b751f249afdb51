-- ===== src/Transactions/Catalog.antt =====
-- `checkout` of transactions.service.ts, the catalog part: the products, modifier assignments and
-- options of a request are read, and each line is validated and resolved against them.
pub mod Rules
pub mod Bought
use kasirk_backend.Base.{
  ℕ, ◌+◌, ◌≤◌, ◌≡◌, refl, Bool, true, false, ◌&&◌, ◌||◌, not, List, [], ◌∷◌, map, Option, none,
  some, arith, if◌then◌else◌, ◌==◌, ltb, length, find, select, count_where, sum_by, includes,
  unique,
}
use kasirk_backend.Base.Text.{Text}
use kasirk_backend.Common.Errors.{
  Result, ok, err, http, bad_request, not_found, internal_error, raise_if, or_raise, ◌>>◌, ◌>>=◌,
  products_not_found, product_not_found, modifier_option_not_found, modifier_group_not_assigned,
  modifier_snapshot_invariant_violation, required_single_modifier_violation,
  optional_single_modifier_violation, required_multiple_not_supported,
  required_single_modifier_missing,
}
use kasirk_backend.Database.Rows.{
  Db, Product, ProductModifierGroup, ModifierGroup, ModifierOption, is_single,
}
use kasirk_backend.Transactions.Dto.{Line, non_empty}

-- An assignment of a modifier group to a product, with the group's name (null if it has no row).
pub record Assignment : Type 0 where
  pub product_id : ℕ
  pub modifier_group_id : ℕ
  pub required : Bool
  pub is_single_selection : Bool
  pub group_name : Text

pub record ResolvedOption : Type 0 where
  pub id : ℕ
  pub modifier_group_id : ℕ
  pub group_name : Text
  pub option_name : Text
  pub price_delta : ℕ

pub record ValidatedItem : Type 0 where
  pub product : Product
  pub options : List ResolvedOption
  pub effective_price : ℕ
  pub quantity : ℕ
  pub note : Option Text

pub record Catalog : Type 0 where
  pub products : List Product
  pub assignments : List Assignment
  pub options : List ModifierOption

active_group : List ModifierGroup → ProductModifierGroup → Option ModifierGroup
active_group groups a =
    find (λ g. g.id == a.modifier_group_id && g.tenant_id == a.tenant_id && g.is_active) groups

-- The rows of `product_modifier_groups` that match, each with its active group.
unfoldable pub read_assignments :
    ℕ → List ℕ → List ModifierGroup → List ProductModifierGroup → List Assignment
unfolding active_group
read_assignments tenant ids groups [] = []
read_assignments tenant ids groups (a ∷ rows) =
    let rest = read_assignments tenant ids groups rows in
    if a.tenant_id == tenant && includes a.product_id ids
    then elim (active_group groups a) [
      | none ↦ rest
      | some g ↦
          record {
            product_id = a.product_id;
            modifier_group_id = a.modifier_group_id;
            required = a.required;
            is_single_selection = is_single a.selection_type;
            group_name = g.name;
          }
          ∷ rest
    ]
    else rest

unfoldable pub read_products : ℕ → List ℕ → Db → List Product
read_products tenant ids db =
    select (λ p. p.tenant_id == tenant && p.is_active && includes p.id ids) db.products

-- The options of the groups that the assignments name. (An empty list of groups matches none.)
read_options : ℕ → List Assignment → Db → List ModifierOption
read_options tenant assignments db =
    select
      (λ o.
        o.tenant_id == tenant
        && includes o.modifier_group_id (unique (map (λ a. a.modifier_group_id) assignments))
        && o.is_active)
      db.modifier_options

-- The catalog reads of `checkout`, up to the test that every product was found.
unfoldable pub read_catalog : ℕ → List Line → Db → Result Catalog
unfolding read_assignments read_products read_options unique
read_catalog tenant lines db =
    let ids = unique (map (λ l. l.product_id) lines) in
    let products = read_products tenant ids db in
    let assignments = read_assignments tenant ids db.modifier_groups db.product_modifier_groups in
    raise_if (not (length products == length ids)) (not_found products_not_found)
    >> ok (record {
      products = products;
      assignments = assignments;
      options = read_options tenant assignments db;
    })

unfoldable pub resolve_option : List Assignment → List ModifierOption → ℕ → Result ResolvedOption
resolve_option assignments options opt_id = do
  opt ← or_raise (find (λ o. o.id == opt_id) options) (bad_request modifier_option_not_found)
  assigned ←
      or_raise (find (λ a. a.modifier_group_id == opt.modifier_group_id) assignments)
        (bad_request modifier_group_not_assigned)
  raise_if (not (non_empty assigned.group_name))
      (internal_error modifier_snapshot_invariant_violation)
  ok (record {
    id = opt.id;
    modifier_group_id = opt.modifier_group_id;
    group_name = assigned.group_name;
    option_name = opt.name;
    price_delta = opt.price_delta;
  })

-- The loop over the requested options.
unfoldable pub resolve_options :
    List Assignment → List ModifierOption → List ℕ → Result (List ResolvedOption)
unfolding resolve_option
resolve_options assignments options [] = ok []
resolve_options assignments options (i ∷ ids) = do
  o ← resolve_option assignments options i
  rest ← resolve_options assignments options ids
  ok (o ∷ rest)

-- `groupSelections.get(id) ?? 0`
unfoldable pub selections : ℕ → List ResolvedOption → ℕ
selections group = count_where (λ o. o.modifier_group_id == group)

-- The rules for one assigned group, where the line selects something.
unfoldable pub check_assignment : Assignment → ℕ → Result (Unit {0})
check_assignment a count =
    raise_if (a.required && a.is_single_selection && not (count == 1))
      (bad_request required_single_modifier_violation)
    >> raise_if (not a.required && a.is_single_selection && ltb 1 count)
        (bad_request optional_single_modifier_violation)
    >> raise_if (not a.is_single_selection && a.required)
        (bad_request required_multiple_not_supported)

unfoldable pub check_selections : List ResolvedOption → List Assignment → Result (Unit {0})
unfolding check_assignment selections
check_selections resolved [] = ok tt
check_selections resolved (a ∷ rest) =
    check_assignment a (selections a.modifier_group_id resolved) >> check_selections resolved rest

-- The rule where the line selects nothing.
unfoldable pub check_none_required : List Assignment → Result (Unit {0})
check_none_required [] = ok tt
check_none_required (a ∷ rest) =
    raise_if (a.required && a.is_single_selection) (bad_request required_single_modifier_missing)
    >> check_none_required rest

-- The options of a line, resolved and checked against the assignments of its product.
unfoldable pub resolve_modifiers :
    List Assignment → List ModifierOption → List ℕ → Result (List ResolvedOption)
unfolding resolve_options check_selections check_none_required
resolve_modifiers assignments options [] = check_none_required assignments >> ok []
resolve_modifiers assignments options (i ∷ ids) = do
  resolved ← resolve_options assignments options (i ∷ ids)
  check_selections resolved assignments
  ok resolved

-- One line: base price plus the deltas of its options.
unfoldable pub validate_line : Catalog → Line → Result ValidatedItem
unfolding resolve_modifiers
validate_line c l = do
  product ← or_raise (find (λ p. p.id == l.product_id) c.products) (not_found product_not_found)
  options ←
      resolve_modifiers (select (λ a. a.product_id == l.product_id) c.assignments) c.options
        l.modifier_option_ids
  ok (record {
    product = product;
    options = options;
    effective_price = product.price + sum_by (λ o. o.price_delta) options;
    quantity = l.quantity;
    note = l.note;
  })

unfoldable pub validate_lines : Catalog → List Line → Result (List ValidatedItem)
unfolding validate_line
validate_lines c [] = ok []
validate_lines c (l ∷ ls) = do
  item ← validate_line c l
  rest ← validate_lines c ls
  ok (item ∷ rest)
