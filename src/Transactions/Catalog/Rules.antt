-- ===== src/Transactions/Catalog/Rules.antt =====
-- The modifier rules of `checkout` and the lines that it validates.
use kasirk_backend.Base.{
  Bool, ℕ, ◌+◌, ◌≡◌, refl, sym, ap, subst, ◌∙◌, true, ◌&&◌, List, [], ◌∷◌, arith, ◌==◌, leb,
  if◌then◌else◌, find, find-true, ==_eq, select, sum_by, All,
}
use kasirk_backend.Common.Errors.{ok, ok-inj, >>=-eq-ok, or_raise-eq-ok, raise_if-eq-ok}
use kasirk_backend.Transactions.Dto.{Line}
use kasirk_backend.Transactions.Catalog.{
  Catalog, Assignment, ResolvedOption, ValidatedItem, resolve_options, check_assignment,
  check_selections, check_none_required, resolve_modifiers, validate_line, selections,
}

-- One choice of a required single group, and at most one of an optional single group.
abbrev pub is_choice : Assignment → ℕ → Bool
is_choice a count =
    if a.is_single_selection then (if a.required then count == 1 else leb count 1) else true

abbrev pub IsChoice : Assignment → ℕ → Type 0
IsChoice a count = is_choice a count ≡ true

check_assignment-IsChoice :
    (a : Assignment) (count : ℕ) {u : Unit {0}} → check_assignment a count ≡ ok u → IsChoice a count
unfolding check_assignment
check_assignment-IsChoice a count h = ground arith

check_selections-IsChoice :
    (resolved : List ResolvedOption) (own : List Assignment) {u : Unit {0}}
    → check_selections resolved own ≡ ok u
    → All (λ a. IsChoice a (selections a.modifier_group_id resolved)) own
unfolding check_selections
check_selections-IsChoice resolved [] h = tt
check_selections-IsChoice resolved (a ∷ own) h =
    let (_, one, rest) =
      >>=-eq-ok (check_assignment a (selections a.modifier_group_id resolved)) _ h in
    (check_assignment-IsChoice a _ one, check_selections-IsChoice resolved own rest)

check_none_required-IsChoice :
    (own : List Assignment) {u : Unit {0}}
    → check_none_required own ≡ ok u
    → All (λ a. IsChoice a (selections a.modifier_group_id [])) own
unfolding check_none_required selections
check_none_required-IsChoice [] h = tt
check_none_required-IsChoice (a ∷ own) h =
    let (free, rest) = raise_if-eq-ok (a.required && a.is_single_selection) _ _ h in
    (ground arith, check_none_required-IsChoice own rest)

resolve_modifiers-IsChoice :
    (own : List Assignment) (options : _) (ids : List ℕ) (resolved : List ResolvedOption)
    → resolve_modifiers own options ids ≡ ok resolved
    → All (λ a. IsChoice a (selections a.modifier_group_id resolved)) own
unfolding resolve_modifiers
resolve_modifiers-IsChoice own options [] resolved h =
    let (_, free, e) = >>=-eq-ok (check_none_required own) _ h in
    subst (λ rs. All (λ a. IsChoice a (selections a.modifier_group_id rs)) own) (ok-inj e)
      (check_none_required-IsChoice own free)
resolve_modifiers-IsChoice own options (i ∷ ids) resolved h =
    let (rs, _, h1) = >>=-eq-ok (resolve_options own options (i ∷ ids)) _ h in
    let (_, chosen, e) = >>=-eq-ok (check_selections rs own) _ h1 in
    subst (λ rs. All (λ a. IsChoice a (selections a.modifier_group_id rs)) own) (ok-inj e)
      (check_selections-IsChoice rs own chosen)

-- A validated line names its product, keeps the requested quantity, costs the product's price and
-- the deltas of its options, and of each single group that is assigned to its product has exactly
-- one option where the group is required and at most one where it is not.
pub validate_line-rules :
    (c : Catalog) (l : Line) (vi : ValidatedItem)
    → validate_line c l ≡ ok vi
    → (vi.product.id ≡ l.product_id)
      × (vi.quantity ≡ l.quantity)
      × (vi.effective_price ≡ vi.product.price + sum_by (λ o. o.price_delta) vi.options)
      × All
          (λ a. IsChoice a (selections a.modifier_group_id vi.options))
          (select (λ a. a.product_id == l.product_id) c.assignments)
unfolding validate_line
validate_line-rules c l vi h =
    let (p, found, h1) = or_raise-eq-ok (find (λ x. x.id == l.product_id) c.products) _ _ h in
    let own = select (λ a. a.product_id == l.product_id) c.assignments in
    let (os, resolved, h2) =
      >>=-eq-ok (resolve_modifiers own c.options l.modifier_option_ids) _ h1 in
    let e = ok-inj h2 in
    (
      sym (ap (λ (v : ValidatedItem). v.product.id) e)
          ∙ ==_eq p.id l.product_id (find-true _ c.products p found),
      sym (ap (λ (v : ValidatedItem). v.quantity) e),
      subst
          (λ (v : ValidatedItem).
            v.effective_price ≡ v.product.price + sum_by (λ o. o.price_delta) v.options)
          e refl,
      subst
          (λ (v : ValidatedItem).
            All (λ a. IsChoice a (selections a.modifier_group_id v.options)) own)
          e (resolve_modifiers-IsChoice own c.options l.modifier_option_ids os resolved),
    )
