-- ===== src/Catalog/Replace.antt =====
-- `replaceModifierGroups` and what is read afterwards.
use kasirk_backend.Base.{
  ℕ, ◌≡◌, refl, sym, ap, ap₂, subst, ◌∙◌, Bool, true, false, not, List, [], ◌∷◌, ◌++◌, map, arith,
  ==_refl, any, select, select-append, select_all, select_none, All, inl, inr, Bool-cases,
}
use kasirk_backend.Base.Sort.{sort}
use kasirk_backend.Base.Text.{Uuid, lower_case}
use kasirk_backend.Common.Errors.{
  ok, ok-pair, ok-inj, conflict, duplicate_modifier_group_assignment, raise_if-eq-ok, >>=-eq-ok,
}
use kasirk_backend.Database.Rows.{Db, ProductModifierGroup}
use kasirk_backend.Database.Client.{bind-ok, lift-ok, lift}
use kasirk_backend.Transactions.Dto.{all_distinct}
use kasirk_backend.Catalog.Tables.{CatalogUser, unless_taken}
use kasirk_backend.Catalog.Products.{validate_product}
use kasirk_backend.Catalog.Assignments.{
  AssignmentDto, Checked, GroupResponse, same_text, check_assignment, check_assignments,
  check_selection, of_product, assignment_row, replace_rows, group_responses, assignment_le,
  read_assigned, check_groups, write_assignments, get_modifier_groups, replace_modifier_groups,
}
use kasirk_backend.Catalog.Steps.{set_assignments}
use kasirk_backend.Catalog.Requests.Products.{validate_product-Reads}
use kasirk_backend.Catalog.Requests.Assignments.{check_groups-Reads, get_modifier_groups-Reads}

-- The rows and the answer after a replacement.
pub record IsReplaced (tenant product : ℕ) (dto : List AssignmentDto) (db db' : Db)
    (r : List GroupResponse) : Type 0 where
  pub checked : List Checked
  pub requested :
      map (λ (c : Checked). c.group) checked
      ≡ map (λ (a : AssignmentDto). lower_case a.modifier_group_id) dto
  pub distinct : all_distinct (map (λ (c : Checked). c.group) checked) ≡ true
  pub own :
      select (of_product tenant product) db'.product_modifier_groups
      ≡ map (assignment_row tenant product) checked
  pub others :
      select (λ a. not (of_product tenant product a)) db'.product_modifier_groups
      ≡ select (λ a. not (of_product tenant product a)) db.product_modifier_groups
  pub answer :
      r ≡ group_responses db' (sort assignment_le (map (assignment_row tenant product) checked))

check_assignment-group :
    (a : AssignmentDto) (c : Checked)
    → check_assignment a ≡ ok c
    → c.group ≡ lower_case a.modifier_group_id
unfolding check_assignment check_selection
check_assignment-group a c h = ground arith

check_assignments-requested :
    (seen : List Uuid) (dto : List AssignmentDto) (cs : List Checked)
    → check_assignments seen dto ≡ ok cs
    → map (λ (c : Checked). c.group) cs
      ≡ map (λ (a : AssignmentDto). lower_case a.modifier_group_id) dto
unfolding check_assignments
check_assignments-requested seen [] cs h = ap (map (λ (c : Checked). c.group)) (sym (ok-inj h))
check_assignments-requested seen (a ∷ rest) cs h =
    let (_, h1) =
      raise_if-eq-ok (any (same_text a.modifier_group_id) seen)
        (conflict duplicate_modifier_group_assignment) _ h in
    let (c, e, h2) = >>=-eq-ok (check_assignment a) _ h1 in
    let (cs', e', h3) = >>=-eq-ok (check_assignments (a.modifier_group_id ∷ seen) rest) _ h2 in
    ap (map (λ (c : Checked). c.group)) (sym (ok-inj h3))
    ∙ ap₂ (λ (x : ℕ) (xs : List ℕ). x ∷ xs) (check_assignment-group a c e)
        (check_assignments-requested (a.modifier_group_id ∷ seen) rest cs' e')

module _ (tenant product : ℕ) where
  rows_of :
      (cs : List Checked)
      → All (λ a. of_product tenant product a ≡ true) (map (assignment_row tenant product) cs)
  unfolding assignment_row
  rows_of [] = tt
  rows_of (c ∷ cs) = (ground (arith, ==_refl tenant, ==_refl product), rows_of cs)

  not-true :
      (p : ProductModifierGroup → Bool) (xs : List ProductModifierGroup)
      → All (λ a. p a ≡ true) xs
      → All (λ a. not (p a) ≡ false) xs
  not-true p [] h = tt
  not-true p (x ∷ xs) (h, hs) = (ap not h, not-true p xs hs)

  -- Selecting after rejecting, and rejecting twice.
  select-rejected :
      (p : ProductModifierGroup → Bool) (xs : List ProductModifierGroup)
      → select p (select (λ a. not (p a)) xs) ≡ []
  select-rejected p [] = refl
  select-rejected p (x ∷ xs) = ground (arith, select-rejected p xs)

  reject-rejected :
      (p : ProductModifierGroup → Bool) (xs : List ProductModifierGroup)
      → select (λ a. not (p a)) (select (λ a. not (p a)) xs) ≡ select (λ a. not (p a)) xs
  reject-rejected p [] = refl
  reject-rejected p (x ∷ xs) = ground (arith, reject-rejected p xs)

  own-replace_rows :
      (cs : List Checked) (rows : List ProductModifierGroup)
      → select (of_product tenant product) (replace_rows tenant product cs rows)
        ≡ map (assignment_row tenant product) cs
  own-replace_rows cs rows =
      select-append (of_product tenant product) _ _
      ∙ ap₂ ◌++◌ (select-rejected (of_product tenant product) rows)
          (select_all (of_product tenant product) _ (rows_of cs))

  append-nil : {A : Type 0} (xs : List A) → xs ++ [] ≡ xs
  append-nil [] = refl
  append-nil {A} (x ∷ xs) = ap (λ (ys : List A). x ∷ ys) (append-nil xs)

  others-replace_rows :
      (cs : List Checked) (rows : List ProductModifierGroup)
      → select (λ a. not (of_product tenant product a)) (replace_rows tenant product cs rows)
        ≡ select (λ a. not (of_product tenant product a)) rows
  others-replace_rows cs rows =
      select-append (λ a. not (of_product tenant product a)) _ _
      ∙ ap₂ ◌++◌ (reject-rejected (of_product tenant product) rows) (
          select_none (λ a. not (of_product tenant product a)) _
            (not-true (of_product tenant product) _ (rows_of cs)))
      ∙ append-nil _

write_assignments-ok :
    (tenant product : ℕ) (cs : List Checked) (db db' : Db) (v : Unit {0})
    → write_assignments tenant product cs db ≡ ok (v, db')
    → (all_distinct (map (λ (c : Checked). c.group) cs) ≡ true)
      × (db' ≡ set_assignments (replace_rows tenant product cs) db)
unfolding write_assignments unless_taken
write_assignments-ok tenant product cs db db' v h =
    elim (Bool-cases (all_distinct (map (λ (c : Checked). c.group) cs))) [
      | inl once ↦ (once, sym (ok-pair (rw once at h)).1)
      | inr twice ↦ cc (rw twice at h)
    ]

module _ (user : CatalogUser) (product : ℕ) where
  get_modifier_groups-ok :
      (db db' : Db) (r : List GroupResponse)
      → get_modifier_groups user product db ≡ ok (r, db')
      → r ≡ read_assigned user.tenant_id product db'
  unfolding get_modifier_groups
  get_modifier_groups-ok db db' r h =
      let (_, d, h1, h2) = bind-ok (validate_product user.tenant_id product) _ db h in
      let (e, e') = ok-pair h2 in sym e ∙ ap (read_assigned user.tenant_id product) e'

  -- A replacement of a product's modifier groups that succeeds leaves the product one assignment
  -- for each requested group, in their order and each group once, leaves the other assignments as
  -- they are, and answers with the new assignments in display order; reading the groups of the
  -- product then gives the same answer.
  pub replace_modifier_groups-read :
      (dto : List AssignmentDto) (db db' : Db) (r : List GroupResponse)
      → replace_modifier_groups user product dto db ≡ ok (r, db')
      → IsReplaced user.tenant_id product dto db db' r
        × (get_modifier_groups user product db' ≡ ok (r, db'))
  unfolding replace_modifier_groups read_assigned
  replace_modifier_groups-read dto db db' r h =
      let (_, d1, e1, h1) = bind-ok (validate_product user.tenant_id product) _ db h in
      let (cs, d2, e2, h2) = bind-ok (lift (check_assignments [] dto)) _ d1 h1 in
      let (_, d3, e3, h3) =
        bind-ok (check_groups user.tenant_id (map (λ (c : Checked). c.group) cs)) _ d2 h2 in
      let (v, d4, e4, h4) = bind-ok (write_assignments user.tenant_id product cs) _ d3 h3 in
      let s1 = validate_product-Reads user product db _ d1 e1 in
      let (ok_cs, s2) = lift-ok (check_assignments [] dto) d1 e2 in
      let s3 = check_groups-Reads user (map (λ (c : Checked). c.group) cs) d2 _ d3 e3 in
      let s5 = get_modifier_groups-Reads user product d4 r db' h4 in
      let (once, s4) = write_assignments-ok user.tenant_id product cs d3 d4 v e4 in
      let start : d3 ≡ db = s3 ∙ s2 ∙ s1 in
      let end : db' ≡ set_assignments (replace_rows user.tenant_id product cs) db =
        s5 ∙ s4 ∙ ap (set_assignments (replace_rows user.tenant_id product cs)) start in
      let rows = ap (λ (x : Db). x.product_modifier_groups) end in
      let own =
        ap (select (of_product user.tenant_id product)) rows
        ∙ own-replace_rows user.tenant_id product cs db.product_modifier_groups in
      (
        record {
          checked = cs;
          requested = check_assignments-requested [] dto cs ok_cs;
          distinct = once;
          own = own;
          others =
              ap (select (λ a. not (of_product user.tenant_id product a))) rows
              ∙ others-replace_rows user.tenant_id product cs db.product_modifier_groups;
          answer =
              get_modifier_groups-ok d4 db' r h4
              ∙ ap (λ x. group_responses db' (sort assignment_le x)) own;
        },
        subst (λ x. get_modifier_groups user product x ≡ ok (r, db')) (sym s5) h4,
      )
