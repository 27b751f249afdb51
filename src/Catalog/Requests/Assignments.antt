-- ===== src/Catalog/Requests/Assignments.antt =====
-- The steps that the requests on the modifier groups of a product make.
use kasirk_backend.Base.{
  ℕ, ◌≡◌, sym, subst, Bool, ◌&&◌, not, List, [], ◌∷◌, ◌++◌, map, arith, ◌==◌, find, any, select,
  update, All, inl, inr, Bool-cases,
}
use kasirk_backend.Base.Text.{Uuid, lower_case}
use kasirk_backend.Common.Errors.{
  duplicate_modifier_group_assignment, Result, ok, ok-pair, conflict, >>=-eq-ok, raise_if-eq-ok,
  ok-inj,
}
use kasirk_backend.Database.Rows.{Db}
use kasirk_backend.Database.Client.{Tx, ◌>>=◌, pure, gets, modify, lift, bind-ok, lift-ok}
use kasirk_backend.Transactions.Dto.{all_distinct}
use kasirk_backend.Catalog.Tables.{CatalogUser, change, unless_taken, product_modifier_groups_pkey}
use kasirk_backend.Catalog.Products.{validate_product}
use kasirk_backend.Catalog.Assignments.{
  Checked, AssignmentDto, check_selection, check_assignment, check_assignments, check_groups,
  write_assignments, get_modifier_groups, replace_modifier_groups, check_group, insert_assignment,
  assign_modifier_group, find_assignment, check_unassigned, rewrite_assignment,
  update_modifier_group_assignment, remove_modifier_group, assigned, assignment_row, read_assigned,
  same_text,
}
use kasirk_backend.Catalog.Steps.{
  CatalogStep, assignments_replaced, assignment_added, assignment_set, assignment_removed,
  set_assignments, IsSupported, Steps, Reads, Steps-read, Steps-catching, Steps-unless_taken,
  Steps-change, Steps-modify, Reads-gets, Reads-lift, Reads-raise_if, Reads-or_raise, Reads-bind,
  Reads-pure,
}
use kasirk_backend.Catalog.Requests.Products.{validate_product-Reads}

module _ (user : CatalogUser) where
  -- The checks of an assignment let only supported ones through.
  check_assignment-IsSupported :
      (a : AssignmentDto) (c : Checked) → check_assignment a ≡ ok c → IsSupported c
  unfolding check_assignment check_selection
  check_assignment-IsSupported a c h = ground arith

  check_assignments-IsSupported :
      (seen : List Uuid) (dto : List AssignmentDto) (cs : List Checked)
      → check_assignments seen dto ≡ ok cs
      → All IsSupported cs
  unfolding check_assignments
  check_assignments-IsSupported seen [] cs h =
      let none_yet : All IsSupported [] = tt in subst (All IsSupported) (ok-inj h) none_yet
  check_assignments-IsSupported seen (a ∷ rest) cs h =
      let (_, h1) =
        raise_if-eq-ok (any (same_text a.modifier_group_id) seen)
          (conflict duplicate_modifier_group_assignment) _ h in
      let (c, e, h2) = >>=-eq-ok (check_assignment a) _ h1 in
      let (cs', e', h3) = >>=-eq-ok (check_assignments (a.modifier_group_id ∷ seen) rest) _ h2 in
      subst (All IsSupported) (ok-inj h3) (
        check_assignment-IsSupported a c e,
        check_assignments-IsSupported (a.modifier_group_id ∷ seen) rest cs' e',
      )

  pub check_groups-Reads : (ids : List ℕ) → Reads user (check_groups user.tenant_id ids)
  unfolding check_groups
  check_groups-Reads [] = Reads-pure user tt
  check_groups-Reads (g ∷ gs) =
      Reads-bind user (gets (λ db. db.modifier_groups)) _
        (Reads-gets user (λ db. db.modifier_groups)) (λ rows. Reads-raise_if user _ _)

  pub get_modifier_groups-Reads : (product : ℕ) → Reads user (get_modifier_groups user product)
  unfolding get_modifier_groups
  get_modifier_groups-Reads product =
      Reads-bind user (validate_product user.tenant_id product) _
        (validate_product-Reads user product)
        (λ _. Reads-gets user (read_assigned user.tenant_id product))

  lifted : {A : Type 0} (r : Result A) (db : Db) (a : A) → lift r db ≡ ok (a, db) → r ≡ ok a
  lifted r db a h = (lift-ok r db h).0

  -- A write, and then only reads.
  Steps-then_read :
      {A B : Type 0} (m : Tx A) (k : A → Tx B) (db : Db)
      → Steps user m db
      → ((a : A) → Reads user (k a))
      → Steps user (m >>= k) db
  Steps-then_read m k db s r b db'' h =
      let (a, d, h1, h2) = bind-ok m k db h in
      subst (CatalogStep user db) (sym (r a d b db'' h2)) (s a d h1)

  write_assignments-Steps :
      (product : ℕ) (cs : List Checked) (db : Db)
      → All IsSupported cs
      → Steps user (write_assignments user.tenant_id product cs) db
  unfolding write_assignments unless_taken
  write_assignments-Steps product cs db good a db' h =
      elim (Bool-cases (not (all_distinct (map (λ (c : Checked). c.group) cs)))) [
        | inl twice ↦ cc (rw twice at h)
        | inr once ↦
            subst (CatalogStep user db) (ok-pair (rw once at h)).1
              (assignments_replaced db product cs good)
      ]

  pub replace_modifier_groups-Steps :
      (product : ℕ) (dto : List AssignmentDto) (db : Db)
      → Steps user (replace_modifier_groups user product dto) db
  unfolding replace_modifier_groups
  replace_modifier_groups-Steps product dto db =
      Steps-read user (validate_product user.tenant_id product) _ db
        (validate_product-Reads user product)
        λ _ _.
          Steps-read user (lift (check_assignments [] dto)) _ db
            (Reads-lift user (check_assignments [] dto))
            λ cs checked.
              Steps-read user (check_groups user.tenant_id (map (λ c. c.group) cs)) _ db
                (check_groups-Reads (map (λ c. c.group) cs))
                λ _ _.
                  Steps-then_read (write_assignments user.tenant_id product cs) _ db
                    (write_assignments-Steps product cs db (
                      check_assignments-IsSupported [] dto cs
                        (lifted (check_assignments [] dto) db cs checked)))
                    (λ _. get_modifier_groups-Reads product)

  check_group-Reads : (group : ℕ) → Reads user (check_group user.tenant_id group)
  unfolding check_group
  check_group-Reads group =
      Reads-bind user (gets (λ db. db.modifier_groups)) _
        (Reads-gets user (λ db. db.modifier_groups)) (λ rows. Reads-raise_if user _ _)

  insert_assignment-Steps :
      (product : ℕ) (c : Checked) (db : Db)
      → IsSupported c
      → Steps user (insert_assignment user.tenant_id product c) db
  unfolding insert_assignment
  insert_assignment-Steps product c db good =
      let add = set_assignments (λ rows. rows ++ assignment_row user.tenant_id product c ∷ []) in
      Steps-unless_taken user product_modifier_groups_pkey
        (any (assigned user.tenant_id product c.group) db.product_modifier_groups)
        (modify add >>= λ _. pure (assignment_row user.tenant_id product c)) db
        (Steps-modify user add (assignment_row user.tenant_id product c) db
          (assignment_added db product c good))

  pub assign_modifier_group-Steps :
      (product : ℕ) (dto : AssignmentDto) (db : Db)
      → Steps user (assign_modifier_group user product dto) db
  unfolding assign_modifier_group
  assign_modifier_group-Steps product dto db =
      Steps-read user (validate_product user.tenant_id product) _ db
        (validate_product-Reads user product)
        λ _ _.
          Steps-read user (lift (check_assignment dto)) _ db
            (Reads-lift user (check_assignment dto))
            λ c checked.
              Steps-read user (check_group user.tenant_id c.group) _ db (check_group-Reads c.group)
                λ _ _. Steps-catching user _ (insert_assignment user.tenant_id product c) db (
                  insert_assignment-Steps product c db (
                    check_assignment-IsSupported dto c
                      (lifted (check_assignment dto) db c checked)))

  find_assignment-Reads :
      (product group : ℕ) → Reads user (find_assignment user.tenant_id product group)
  unfolding find_assignment
  find_assignment-Reads product group =
      Reads-bind user (gets (λ db. db.product_modifier_groups)) _
        (Reads-gets user (λ db. db.product_modifier_groups))
        (λ rows. Reads-or_raise user (find (assigned user.tenant_id product group) rows) _)

  check_unassigned-Reads :
      (product : ℕ) (same : Bool) (new : ℕ)
      → Reads user (check_unassigned user.tenant_id product same new)
  unfolding check_unassigned
  check_unassigned-Reads product same new =
      Reads-bind user (gets (λ db. db.product_modifier_groups)) _
        (Reads-gets user (λ db. db.product_modifier_groups)) (λ rows. Reads-raise_if user _ _)

  rewrite_assignment-Steps :
      (product group : ℕ) (c : Checked) (db : Db)
      → IsSupported c
      → Steps user (rewrite_assignment user.tenant_id product group c) db
  unfolding rewrite_assignment
  rewrite_assignment-Steps product group c db good =
      let write = set_assignments (
        update (assigned user.tenant_id product group)
          (λ a. assignment_row user.tenant_id product c)) in
      let row =
        λ (d : Db). find (assigned user.tenant_id product c.group) d.product_modifier_groups in
      Steps-unless_taken user product_modifier_groups_pkey
        (not (c.group == group)
          && any (assigned user.tenant_id product c.group) db.product_modifier_groups)
        (change write row) db
        (Steps-change user write row db (assignment_set db product group c good))

  pub update_modifier_group_assignment-Steps :
      (product : ℕ) (group : Uuid) (dto : AssignmentDto) (db : Db)
      → Steps user (update_modifier_group_assignment user product group dto) db
  unfolding update_modifier_group_assignment
  update_modifier_group_assignment-Steps product group dto db =
      let same = same_text dto.modifier_group_id group in
      Steps-read user (validate_product user.tenant_id product) _ db
        (validate_product-Reads user product)
        λ _ _.
          Steps-read user (lift (check_assignment dto)) _ db
            (Reads-lift user (check_assignment dto))
            λ c checked.
              Steps-read user (find_assignment user.tenant_id product (lower_case group)) _ db
                (find_assignment-Reads product (lower_case group))
                λ _ _.
                  Steps-read user (check_group user.tenant_id c.group) _ db
                    (check_group-Reads c.group)
                    λ _ _.
                      Steps-read user (check_unassigned user.tenant_id product same c.group) _ db
                        (check_unassigned-Reads product same c.group)
                        λ _ _.
                          Steps-catching user _
                            (rewrite_assignment user.tenant_id product (lower_case group) c) db
                            (rewrite_assignment-Steps product (lower_case group) c db (
                              check_assignment-IsSupported dto c
                                (lifted (check_assignment dto) db c checked)))

  pub remove_modifier_group-Steps :
      (product group : ℕ) (db : Db) → Steps user (remove_modifier_group user product group) db
  unfolding remove_modifier_group
  remove_modifier_group-Steps product group db =
      let drop = set_assignments (select (λ r. not (assigned user.tenant_id product group r))) in
      Steps-read user (validate_product user.tenant_id product) _ db
        (validate_product-Reads user product)
        λ _ _.
          Steps-read user (find_assignment user.tenant_id product group) _ db
            (find_assignment-Reads product group)
            λ a _. Steps-modify user drop a db (assignment_removed db product group)
