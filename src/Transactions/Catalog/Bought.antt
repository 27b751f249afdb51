-- ===== src/Transactions/Catalog/Bought.antt =====
-- The lines that `checkout` validates, beside the rows of the database.
use kasirk_backend.Base.{
  ℕ, ◌+◌, ◌≡◌, refl, sym, ap, ap₂, subst, ◌∙◌, Bool, true, false, ◌&&◌, List, [], ◌∷◌, Option, none,
  some, arith, ◌==◌, ==_eq, ==_refl, if◌then◌else◌, find, find-true, any, select, sum_by, includes,
  inl, inr, Bool-cases,
}
use kasirk_backend.Common.Errors.{ok, ok-inj, >>=-eq-ok, or_raise-eq-ok, raise_if-eq-ok}
use kasirk_backend.Base.Pick.{find-select, any-select, find-select-true, first, last, all_hold}
use kasirk_backend.Database.Rows.{Db, Product, ModifierOption}
use kasirk_backend.Transactions.Dto.{Line}
use kasirk_backend.Transactions.Catalog.{
  Catalog, Assignment, ResolvedOption, ValidatedItem, read_products, read_options, read_catalog,
  resolve_option, resolve_options, resolve_modifiers, check_selections, check_none_required,
  validate_line, validate_lines,
}
use kasirk_backend.Transactions.Persist.StockEffect.{tracked_quantity}

-- The row of a product that the tenant sells.
abbrev pub on_sale : ℕ → ℕ → Product → Bool
on_sale tenant id p = p.id == id && (p.tenant_id == tenant && p.is_active)

-- An active option of the tenant has the id and the price delta.
abbrev pub IsChosen : ℕ → Db → ℕ → ResolvedOption → Type 0
IsChosen tenant db id o =
    (o.id ≡ id)
    × (any
          (λ m.
            m.id == id && m.tenant_id == tenant && m.is_active && m.price_delta == o.price_delta)
          db.modifier_options
        ≡ true)

abbrev pub AreChosen : ℕ → Db → List ℕ → List ResolvedOption → Type 0
AreChosen tenant db [] [] = Unit
AreChosen tenant db (i ∷ ids) (o ∷ os) = IsChosen tenant db i o × AreChosen tenant db ids os
AreChosen tenant db _ _ = ⊥

-- What a requested line costs and takes, by the rows of the database.
pub record IsBought (tenant : ℕ) (db : Db) (l : Line) (vi : ValidatedItem) : Type 0 where
  pub product : find (on_sale tenant l.product_id) db.products ≡ some vi.product
  pub quantity : vi.quantity ≡ l.quantity
  pub note : vi.note ≡ l.note
  pub options : AreChosen tenant db l.modifier_option_ids vi.options
  pub price : vi.effective_price ≡ vi.product.price + sum_by (λ o. o.price_delta) vi.options

abbrev pub AreBought : ℕ → Db → List Line → List ValidatedItem → Type 0
AreBought tenant db [] [] = Unit
AreBought tenant db (l ∷ ls) (vi ∷ items) = IsBought tenant db l vi × AreBought tenant db ls items
AreBought tenant db _ _ = ⊥

-- The tenant keeps stock of the product.
abbrev pub keeps_stock : Option Product → Bool
keeps_stock none = false
keeps_stock (some p) = p.track_stock

abbrev pub is_tracked : ℕ → Db → ℕ → Bool
is_tracked tenant db id = keeps_stock (find (on_sale tenant id) db.products)

-- What the lines ask of a product, if its stock is kept.
abbrev pub asked : ℕ → Db → ℕ → List Line → ℕ
asked tenant db product =
    sum_by (λ l. if is_tracked tenant db product && l.product_id == product then l.quantity else 0)

read_products-on_sale :
    (tenant id : ℕ) (ids : List ℕ) (db : Db) (p : Product)
    → find (λ x. x.id == id) (read_products tenant ids db) ≡ some p
    → find (on_sale tenant id) db.products ≡ some p
unfolding read_products
read_products-on_sale tenant id ids db p h =
    let named = ==_eq p.id id (find-true (λ x. x.id == id) _ p h) in
    let read =
      find-select-true (λ x. x.id == id)
        (λ x. x.tenant_id == tenant && x.is_active && includes x.id ids) db.products p h in
    find-select (λ x. x.id == id) (λ x. x.tenant_id == tenant && x.is_active && includes x.id ids)
      (λ x. x.tenant_id == tenant && x.is_active) (λ x q. ground arith)
      (λ x same r. ground (
        arith,
        r,
        subst (λ n. includes n ids ≡ true) (sym (==_eq x.id id same))
            (subst (λ n. includes n ids ≡ true) named
              (last (p.tenant_id == tenant && p.is_active) (includes p.id ids) read)),
      ))
      db.products p h

resolve_option-IsChosen :
    (tenant : ℕ) (from : List Assignment) (db : Db) (own : List Assignment) (i : ℕ)
    (o : ResolvedOption)
    → resolve_option own (read_options tenant from db) i ≡ ok o
    → IsChosen tenant db i o
unfolding resolve_option read_options
resolve_option-IsChosen tenant from db own i o h =
    let (opt, found, h1) =
      or_raise-eq-ok (find (λ m. m.id == i) (read_options tenant from db)) _ _ h in
    let (a, _, h2) =
      or_raise-eq-ok (find (λ x. x.modifier_group_id == opt.modifier_group_id) own) _ _ h1 in
    let (_, h3) = raise_if-eq-ok _ _ _ h2 in
    let named = ==_eq opt.id i (find-true _ (read_options tenant from db) opt found) in
    let e = ok-inj h3 in
    (
      sym (ap (λ (r : ResolvedOption). r.id) e) ∙ named,
      any-select (λ m. m.id == i) _
          (λ m. m.id == i && m.tenant_id == tenant && m.is_active && m.price_delta == o.price_delta)
          db.modifier_options opt found
          (λ m q same.
            all_hold (m.id == i) (m.tenant_id == tenant) _ m.is_active
              (m.price_delta == o.price_delta) q
              (ap (λ (x : ModifierOption). x.id == i) same ∙ ap (λ n. n == i) named ∙ ==_refl i)
              (ap (λ (x : ModifierOption). x.price_delta == o.price_delta) same
                ∙ ap (λ n. n == o.price_delta) (ap (λ (r : ResolvedOption). r.price_delta) e)
                ∙ ==_refl o.price_delta)),
    )

resolve_options-AreChosen :
    (tenant : ℕ) (from : List Assignment) (db : Db) (own : List Assignment) (ids : List ℕ)
    (os : List ResolvedOption)
    → resolve_options own (read_options tenant from db) ids ≡ ok os
    → AreChosen tenant db ids os
unfolding resolve_options
resolve_options-AreChosen tenant from db own [] os h = subst (AreChosen tenant db []) (ok-inj h) tt
resolve_options-AreChosen tenant from db own (i ∷ ids) os h =
    let (o, one, h1) = >>=-eq-ok (resolve_option own (read_options tenant from db) i) _ h in
    let (rest, others, h2) =
      >>=-eq-ok (resolve_options own (read_options tenant from db) ids) _ h1 in
    subst (AreChosen tenant db (i ∷ ids)) (ok-inj h2) (
      resolve_option-IsChosen tenant from db own i o one,
      resolve_options-AreChosen tenant from db own ids rest others,
    )

resolve_modifiers-AreChosen :
    (tenant : ℕ) (from : List Assignment) (db : Db) (own : List Assignment) (ids : List ℕ)
    (os : List ResolvedOption)
    → resolve_modifiers own (read_options tenant from db) ids ≡ ok os
    → AreChosen tenant db ids os
unfolding resolve_modifiers
resolve_modifiers-AreChosen tenant from db own [] os h =
    let (_, _, h1) = >>=-eq-ok (check_none_required own) _ h in
    subst (AreChosen tenant db []) (ok-inj h1) tt
resolve_modifiers-AreChosen tenant from db own (i ∷ ids) os h =
    let (rs, resolved, h1) =
      >>=-eq-ok (resolve_options own (read_options tenant from db) (i ∷ ids)) _ h in
    let (_, _, h2) = >>=-eq-ok (check_selections rs own) _ h1 in
    subst (AreChosen tenant db (i ∷ ids)) (ok-inj h2)
      (resolve_options-AreChosen tenant from db own (i ∷ ids) rs resolved)

-- A catalog as `read_catalog` reads it.
abbrev catalog_of : ℕ → List ℕ → List Assignment → List Assignment → Db → Catalog
catalog_of tenant ids from assignments db = record {
  products = read_products tenant ids db;
  assignments = assignments;
  options = read_options tenant from db;
}

module _ (tenant : ℕ) (ids : List ℕ) (from assignments : List Assignment) (db : Db) where
  validate_line-IsBought :
      (l : Line) (vi : ValidatedItem)
      → validate_line (catalog_of tenant ids from assignments db) l ≡ ok vi
      → IsBought tenant db l vi
  unfolding validate_line
  validate_line-IsBought l vi h =
      let (p, found, h1) =
        or_raise-eq-ok (find (λ x. x.id == l.product_id) (read_products tenant ids db)) _ _ h in
      let own = select (λ a. a.product_id == l.product_id) assignments in
      let (os, resolved, h2) =
        >>=-eq-ok (resolve_modifiers own (read_options tenant from db) l.modifier_option_ids) _
          h1 in
      subst (IsBought tenant db l) (ok-inj h2) (record {
        product = read_products-on_sale tenant l.product_id ids db p found;
        quantity = refl;
        note = refl;
        options = resolve_modifiers-AreChosen tenant from db own l.modifier_option_ids os resolved;
        price = refl;
      })

  validate_lines-of :
      (ls : List Line) (items : List ValidatedItem)
      → validate_lines (catalog_of tenant ids from assignments db) ls ≡ ok items
      → AreBought tenant db ls items
  unfolding validate_lines
  validate_lines-of [] items h = subst (AreBought tenant db []) (ok-inj h) tt
  validate_lines-of (l ∷ ls) items h =
      let (vi, one, h1) =
        >>=-eq-ok (validate_line (catalog_of tenant ids from assignments db) l) _ h in
      let (rest, others, h2) =
        >>=-eq-ok (validate_lines (catalog_of tenant ids from assignments db) ls) _ h1 in
      subst (AreBought tenant db (l ∷ ls)) (ok-inj h2)
        (validate_line-IsBought l vi one, validate_lines-of ls rest others)

pub validate_lines-AreBought :
    (tenant : ℕ) (lines : List Line) (db : Db) (c : Catalog) (items : List ValidatedItem)
    → read_catalog tenant lines db ≡ ok c
    → validate_lines c lines ≡ ok items
    → AreBought tenant db lines items
unfolding read_catalog
validate_lines-AreBought tenant lines db c items h k =
    let (_, e) = raise_if-eq-ok _ _ _ h in
    validate_lines-of tenant _ _ _ db lines items
      (subst (λ x. validate_lines x lines ≡ ok items) (sym (ok-inj e)) k)

line_takes :
    (tenant : ℕ) (db : Db) (product : ℕ) (l : Line) (vi : ValidatedItem)
    → IsBought tenant db l vi
    → (if vi.product.track_stock && vi.product.id == product then vi.quantity else 0)
      ≡ (if is_tracked tenant db product && l.product_id == product then l.quantity else 0)
line_takes tenant db product l vi b =
    let named = ==_eq vi.product.id l.product_id (
      first (vi.product.id == l.product_id) (vi.product.tenant_id == tenant && vi.product.is_active)
        (find-true (on_sale tenant l.product_id) db.products vi.product b.product)) in
    let kept : is_tracked tenant db l.product_id ≡ vi.product.track_stock =
      ap keeps_stock b.product in
    elim (Bool-cases (l.product_id == product)) [
      | inl e ↦
          let same = ==_eq l.product_id product e in
          ground (
            arith,
            b.quantity,
            ap (λ n. n == product) named,
            e,
            sym (ap (is_tracked tenant db) same) ∙ kept,
          )
      | inr e ↦ ground (arith, ap (λ n. n == product) named, e)
    ]

pub tracked_quantity-asked :
    (tenant : ℕ) (db : Db) (product : ℕ) (lines : List Line) (items : List ValidatedItem)
    → AreBought tenant db lines items
    → tracked_quantity product items ≡ asked tenant db product lines
tracked_quantity-asked tenant db product [] [] h = refl
tracked_quantity-asked tenant db product [] (vi ∷ items) h = elim h [ ]
tracked_quantity-asked tenant db product (l ∷ ls) [] h = elim h [ ]
tracked_quantity-asked tenant db product (l ∷ ls) (vi ∷ items) (b, bs) =
    ap₂ ◌+◌ (line_takes tenant db product l vi b)
      (tracked_quantity-asked tenant db product ls items bs)
