-- ===== src/HeldOrders/Convert/Links.antt =====
-- The link between a held order and its sale, as `convertHeldOrder` makes it.
use kasirk_backend.Base.{
  ℕ, ◌+◌, ◌≤◌, ◌≡◌, sym, ap, subst, subst₂, Bool, true, false, ◌&&◌, not, List, [], ◌∷◌, Option,
  none, some, arith, ◌==◌, ==_refl, ==_eq, and_parts, opt_eq, if◌then◌else◌, count_where, update,
  Bool-cases, inl, inr, find, find-true,
}
use kasirk_backend.Common.Errors.{
  ok, HttpException, ok-pair, conflict, held_order_version_conflict, held_order_resource_conflict,
  >>=-eq-ok, or_raise,
}
use kasirk_backend.Database.Rows.{Db, HeldOrder}
use kasirk_backend.Database.Client.{raise_if-ok, bind-ok, reads-bind}
use kasirk_backend.Transactions.Dto.{v1}
use kasirk_backend.Transactions.Response.{read_record}
use kasirk_backend.Transactions.Core.{execute_transaction_core}
use kasirk_backend.HeldOrders.Dto.{CheckoutHeldOrderDto}
use kasirk_backend.HeldOrders.Access.{HeldActor, in_scope, read_scope}
use kasirk_backend.HeldOrders.Read.{assert_open_version, read_held, find_in_scope, is_order}
use kasirk_backend.HeldOrders.Write.{claimable, guarded_update}
use kasirk_backend.HeldOrders.Convert.{
  Conversion, seller, find_linked, replay_dto, replay_conversion, check_origin, claim_row,
  convert_row, held_checkout_dto, first_conversion, is_converted, convert_held_order,
}

-- The order of that id, converted and linked to a transaction.
abbrev pub linked : ℕ → ℕ → ℕ → HeldOrder → Bool
linked tenant id transaction o =
    is_order tenant id o && is_converted o && opt_eq o.converted_transaction_id (some transaction)

count_update :
    {A : Type 0} (p q : A → Bool) (f : A → A)
    → ((x : A) → p x ≡ true → q (f x) ≡ true)
    → (xs : List A) → count_where p xs ≤ count_where q (update p f xs)
count_update p q f hit [] = omega arith
count_update p q f hit (x ∷ xs) = elim (Bool-cases (p x)) [
  | inl here ↦ ground (arith, hit x here, count_update p q f hit xs)
  | inr away ↦ ground (arith, count_update p q f hit xs)
]

guarded_update-ok :
    (tenant id version : ℕ) (e : HttpException) (change : Db → HeldOrder → HeldOrder) (db db' : Db)
    {u : Unit {0}}
    → guarded_update tenant id version e change db ≡ ok (u, db')
    → (count_where (claimable tenant id version) db.held_orders ≡ 1)
      × (db'.held_orders ≡ update (claimable tenant id version) (change db) db.held_orders)
unfolding guarded_update
guarded_update-ok tenant id version e change db db' h =
    let (one, same) =
      raise_if-ok (not (count_where (claimable tenant id version) db.held_orders == 1)) _ _ h in
    (ground arith, ap (λ (d : Db). d.held_orders) same)

convert_row-linked :
    (tenant id version transaction : ℕ) (db : Db) (o : HeldOrder)
    → claimable tenant id version o ≡ true
    → linked tenant id transaction (convert_row transaction db o) ≡ true
convert_row-linked tenant id version transaction db o h = ground (arith, ==_refl transaction)

at_least_one : (a b : ℕ) → a ≡ 1 → a ≤ b → 1 ≤ b
at_least_one a b e h = omega arith

first_conversion-linked :
    (actor : HeldActor) (o : HeldOrder) (dto : CheckoutHeldOrderDto) (db db' : Db) (c : Conversion)
    → first_conversion actor o dto db ≡ ok (c, db')
    → 1 ≤ count_where (linked actor.tenant_id o.id c.transaction.transaction_id) db'.held_orders
unfolding first_conversion
first_conversion-linked actor o dto db db' c h =
    let (_, _, h1) = reads-bind (λ d. assert_open_version o dto.expected_version) _ db h in
    let (_, _, h2) = reads-bind (check_origin actor o) _ db h1 in
    let (_, mid, _, h3) =
      bind-ok
        (guarded_update actor.tenant_id o.id dto.expected_version
          (conflict held_order_version_conflict) claim_row)
        _ db h2 in
    let (r, mid', _, h4) =
      bind-ok (execute_transaction_core (seller actor) (held_checkout_dto (read_held db o) dto) v1)
        _ mid h3 in
    let (_, mid'', marked, h5) =
      bind-ok
        (guarded_update actor.tenant_id o.id (dto.expected_version + 1)
          (conflict held_order_resource_conflict) (convert_row r.transaction_id))
        _ mid' h4 in
    let (shown, same) = ok-pair h5 in
    let (one, rows) =
      guarded_update-ok actor.tenant_id o.id (dto.expected_version + 1)
        (conflict held_order_resource_conflict) (convert_row r.transaction_id) mid' mid'' marked in
    let enough =
      count_update (claimable actor.tenant_id o.id (dto.expected_version + 1))
        (linked actor.tenant_id o.id r.transaction_id) (convert_row r.transaction_id mid')
        (convert_row-linked actor.tenant_id o.id (dto.expected_version + 1) r.transaction_id mid')
        mid'.held_orders in
    subst₂
      (λ (x : Conversion) (d : Db).
        1 ≤ count_where (linked actor.tenant_id o.id x.transaction.transaction_id) d.held_orders)
      shown same
      (subst (λ xs. 1 ≤ count_where (linked actor.tenant_id o.id r.transaction_id) xs) (sym rows)
        (at_least_one _ _ one enough))

or_raise-some :
    {A : Type 0} (o : Option A) (e : HttpException) {a : A} → or_raise o e ≡ ok a → o ≡ some a
or_raise-some none e h = cc
or_raise-some (some a) e h = cc

-- The order that a request names is the one that was found.
find_in_scope-id :
    (actor : HeldActor) (id : ℕ) (db : Db) (o : HeldOrder)
    → find_in_scope actor id db ≡ ok o
    → o.id ≡ id
unfolding find_in_scope
find_in_scope-id actor id db o h =
    let (scope, _, h1) = >>=-eq-ok (read_scope actor none db) _ h in
    let found =
      find-true (λ x. in_scope actor.tenant_id scope x && x.id == id) db.held_orders o
        (or_raise-some (find (λ x. in_scope actor.tenant_id scope x && x.id == id) db.held_orders) _
          h1) in
    ==_eq o.id id (and_parts (in_scope actor.tenant_id scope o) (o.id == id) found).1

-- A replay says that it is one.
replay_conversion-replayed :
    (actor : HeldActor) (o : HeldOrder) (dto : CheckoutHeldOrderDto) (db db' : Db) (c : Conversion)
    → replay_conversion actor o dto db ≡ ok (c, db')
    → c.replayed ≡ true
unfolding replay_conversion
replay_conversion-replayed actor o dto db db' c h =
    let (t, _, h1) = reads-bind (find_linked actor o dto) _ db h in
    let (r, mid, _, h2) =
      bind-ok (execute_transaction_core (seller actor) (replay_dto o (read_record db t) dto) v1) _
        db h1 in
    sym (ap (λ (x : Conversion). x.replayed) (ok-pair h2).0)

-- A conversion that succeeds and is not a replay leaves the order of that id converted and linked
-- to the sale that the response shows.
pub convert_held_order-linked :
    (actor : HeldActor) (id : ℕ) (dto : CheckoutHeldOrderDto) (db db' : Db) (c : Conversion)
    → convert_held_order actor id dto db ≡ ok (c, db')
    → c.replayed ≡ false
    → 1 ≤ count_where (linked actor.tenant_id id c.transaction.transaction_id) db'.held_orders
unfolding convert_held_order
convert_held_order-linked actor id dto db db' c h new =
    let (o, found, h1) = reads-bind (find_in_scope actor id) _ db h in
    subst
      (λ n. 1 ≤ count_where (linked actor.tenant_id n c.transaction.transaction_id) db'.held_orders)
      (find_in_scope-id actor id db o found) (either (is_converted o) o h1)
  where
    either :
        (b : Bool) (o : HeldOrder)
        → (if b then replay_conversion actor o dto else first_conversion actor o dto) db
          ≡ ok (c, db')
        → 1 ≤ count_where (linked actor.tenant_id o.id c.transaction.transaction_id) db'.held_orders
    either false o k = first_conversion-linked actor o dto db db' c k
    either true o k = let again = replay_conversion-replayed actor o dto db db' c k in ground arith
