-- ===== src/HeldOrders/Resolve.antt =====
-- `resolveItems`, `totals` and `persistItems` of held-orders.service.ts.
use kasirk_backend.Base.{
  ℕ, suc, ◌+◌, ◌*◌, ◌&&◌, not, List, [], ◌∷◌, ◌++◌, map, Option, none, some, ◌==◌, ltb, length,
  find, select, includes, sum_by, unique,
}
use kasirk_backend.Base.Text.{Text}
use kasirk_backend.Common.Errors.{
  Result, ok, bad_request, conflict, raise_if, or_raise, ◌>>◌, ◌>>=◌, held_order_catalog_conflict,
  held_order_total_out_of_range, modifier_option_not_found, modifier_group_not_assigned,
  required_single_modifier_missing, required_single_modifier_violation,
  optional_single_modifier_violation, required_multiple_not_supported,
}
use kasirk_backend.Common.Tax.{calculate_tax}
use kasirk_backend.Database.Rows.{
  Db, Product, Tenant, ModifierOption, HeldOrderItem, HeldOrderItemModifier,
}
use kasirk_backend.Database.Client
use kasirk_backend.Database.Client.{Tx}
use kasirk_backend.Transactions.Dto.{Line, max_safe_integer}
use kasirk_backend.Transactions.Catalog.{
  Assignment, ResolvedOption, read_products, read_assignments, selections,
}
use kasirk_backend.HeldOrders.Dto.{or_null}

pub record ResolvedItem : Type 0 where
  pub product : Product
  pub quantity : ℕ
  pub note : Option Text
  pub options : List ResolvedOption
  pub effective_price : ℕ

-- `money`: only the range is tested.
unfoldable pub check_money : ℕ → Result (Unit {0})
check_money value =
    raise_if (ltb max_safe_integer value) (bad_request held_order_total_out_of_range)

resolve_option : List Assignment → List ModifierOption → ℕ → Result ResolvedOption
resolve_option assignments options opt_id = do
  opt ← or_raise (find (λ o. o.id == opt_id) options) (bad_request modifier_option_not_found)
  assignment ←
      or_raise (find (λ a. a.modifier_group_id == opt.modifier_group_id) assignments)
        (bad_request modifier_group_not_assigned)
  ok (record {
    id = opt.id;
    modifier_group_id = opt.modifier_group_id;
    group_name = assignment.group_name;
    option_name = opt.name;
    price_delta = opt.price_delta;
  })

unfoldable pub resolve_options :
    List Assignment → List ModifierOption → List ℕ → Result (List ResolvedOption)
unfolding resolve_option
resolve_options assignments options [] = ok []
resolve_options assignments options (i ∷ ids) = do
  o ← resolve_option assignments options i
  rest ← resolve_options assignments options ids
  ok (o ∷ rest)

check_assignment : Assignment → ℕ → Result (Unit {0})
check_assignment a count =
    raise_if (a.required && a.is_single_selection && count == 0)
      (bad_request required_single_modifier_missing)
    >> raise_if (a.required && a.is_single_selection && not (count == 1))
        (bad_request required_single_modifier_violation)
    >> raise_if (not a.required && a.is_single_selection && ltb 1 count)
        (bad_request optional_single_modifier_violation)
    >> raise_if (a.required && not a.is_single_selection)
        (bad_request required_multiple_not_supported)

unfoldable pub check_selections : List ResolvedOption → List Assignment → Result (Unit {0})
unfolding check_assignment
check_selections resolved [] = ok tt
check_selections resolved (a ∷ rest) =
    check_assignment a (selections a.modifier_group_id resolved) >> check_selections resolved rest

note_or_null : Option Text → Option Text
note_or_null none = none
note_or_null (some s) = or_null s

-- One line, its price and its total within the range of `money`.
unfoldable pub resolve_line :
    List Product → List Assignment → List ModifierOption → Line → Result ResolvedItem
unfolding resolve_options check_selections note_or_null check_money
resolve_line products assignments options l = do
  product ←
      or_raise (find (λ p. p.id == l.product_id) products) (conflict held_order_catalog_conflict)
  let own = select (λ a. a.product_id == l.product_id) assignments
  resolved ← resolve_options own options l.modifier_option_ids
  check_selections resolved own
  let price = product.price + sum_by (λ o. o.price_delta) resolved
  check_money price
  check_money (price * l.quantity)
  ok (record {
    product = product;
    quantity = l.quantity;
    note = note_or_null l.note;
    options = resolved;
    effective_price = price;
  })

resolve_lines :
    List Product → List Assignment → List ModifierOption → List Line → Result (List ResolvedItem)
unfolding resolve_line
resolve_lines products assignments options [] = ok []
resolve_lines products assignments options (l ∷ ls) = do
  item ← resolve_line products assignments options l
  rest ← resolve_lines products assignments options ls
  ok (item ∷ rest)

requested_options : List Line → List ℕ
requested_options [] = []
requested_options (l ∷ ls) = l.modifier_option_ids ++ requested_options ls

-- `resolveItems`, over lines that are normalized.
unfoldable pub resolve_items : ℕ → List Line → Db → Result (List ResolvedItem)
unfolding resolve_lines requested_options
resolve_items tenant lines db =
    let ids = unique (map (λ l. l.product_id) lines) in
    let products = read_products tenant ids db in
    let assignments = read_assignments tenant ids db.modifier_groups db.product_modifier_groups in
    let wanted = unique (requested_options lines) in
    let options =
      select (λ o. o.tenant_id == tenant && includes o.id wanted && o.is_active)
        db.modifier_options in
    raise_if (not (length products == length ids)) (conflict held_order_catalog_conflict)
    >> resolve_lines products assignments options lines

pub record Estimates : Type 0 where
  pub subtotal_estimate : ℕ
  pub tax_estimate : ℕ
  pub total_estimate : ℕ

abbrev pub line_total : ResolvedItem → ℕ
line_total i = i.effective_price * i.quantity

-- `totals`
unfoldable pub estimate : Tenant → List ResolvedItem → Result Estimates
unfolding check_money
estimate tenant items =
    let subtotal = sum_by line_total items in
    let taxed = calculate_tax tenant.tax_enabled tenant.tax_rate subtotal in
    check_money subtotal
    >> check_money taxed.tax
    >> check_money taxed.total
    >> ok (record {
      subtotal_estimate = subtotal;
      tax_estimate = taxed.tax;
      total_estimate = taxed.total;
    })

unfoldable pub create_held_item : ℕ → ℕ → ℕ → ResolvedItem → Tx ℕ
create_held_item tenant order position i db = ok (
  db.next_id,
  record db { held_order_items = db.held_order_items ++ row ∷ []; next_id = suc db.next_id },
)
  where
    row : HeldOrderItem
    row = record {
      id = db.next_id;
      tenant_id = tenant;
      held_order_id = order;
      product_id = i.product.id;
      quantity = i.quantity;
      product_name_snapshot = i.product.name;
      sku_snapshot = i.product.sku;
      base_price_snapshot = i.product.price;
      effective_price_snapshot = i.effective_price;
      line_subtotal = line_total i;
      line_discount = 0;
      line_total = line_total i;
      note_snapshot = i.note;
      display_order = position;
    }

unfoldable pub create_held_modifiers : ℕ → ℕ → List ResolvedOption → Tx (Unit {0})
create_held_modifiers tenant item [] db = ok (tt, db)
create_held_modifiers tenant item (o ∷ options) db =
    create_held_modifiers tenant item options (record db {
      held_order_item_modifiers = db.held_order_item_modifiers ++ row ∷ [];
      next_id = suc db.next_id;
    })
  where
    row : HeldOrderItemModifier
    row = record {
      id = db.next_id;
      tenant_id = tenant;
      held_order_item_id = item;
      modifier_group_id = some o.modifier_group_id;
      modifier_option_id = some o.id;
      group_name_snapshot = o.group_name;
      option_name_snapshot = o.option_name;
      price_delta_snapshot = o.price_delta;
    }

-- The loop of `persistItems`, from a display order on.
unfoldable pub persist_items : ℕ → ℕ → ℕ → List ResolvedItem → Tx (Unit {0})
unfolding create_held_item create_held_modifiers
persist_items tenant order position [] = Client.pure tt
persist_items tenant order position (i ∷ items) =
    Client.◌>>=◌ (create_held_item tenant order position i) λ id.
      Client.◌>>◌ (create_held_modifiers tenant id i.options)
        (persist_items tenant order (suc position) items)
