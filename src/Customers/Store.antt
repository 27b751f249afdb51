-- ===== src/Customers/Store.antt =====
-- The operations of customers.service.ts on the table of customers.
use kasirk_backend.Base.{
  ℕ, suc, ◌&&◌, not, Bool, true, false, List, [], ◌∷◌, ◌++◌, Option, none, some, if◌then◌else◌,
  ◌==◌, opt_eq, leb, find, select, any, update,
}
use kasirk_backend.Base.Sort.{sort, list_eq}
use kasirk_backend.Base.Text.{Text, IdText, uuid, malformed, lower_case}
use kasirk_backend.Common.Errors
use kasirk_backend.Common.Errors.{
  Result, ok, err, Failure, http, prisma, other_error, p2002, p2003, p2025, HttpException,
  bad_request, unauthorized, forbidden, conflict, not_found, internal_error, invalid_user_context,
  user_or_tenant_inactive, role_not_allowed, customer_not_found, cannot_be_blank,
  customer_field_required, invalid_customer_id, customer_phone_exists, customer_has_transactions,
  customer_value_out_of_range,
}
use kasirk_backend.Common.Roles.{Role, is_known, is_manager}
use kasirk_backend.Database.Rows.{Db, Customer}
use kasirk_backend.Database.Client.{Tx, ◌>>=◌, ◌>>◌, gets, lift, reads}
use kasirk_backend.Database.Actors.{active_user}
use kasirk_backend.Database.Retry.{run_transaction}
use kasirk_backend.Transactions.Dto.{get_or}
use kasirk_backend.Transactions.Create.{JwtPayload}
use kasirk_backend.Catalog.Tables.{insert, change, unless_taken, unless_referred}
use kasirk_backend.Customers.Data.{
  CreateCustomerDto, UpdateCustomerDto, CustomerWriteData, create_data, update_data,
}

-- The number of the unique index on the phone.
abbrev pub uq_customers_tenant_phone : ℕ
uq_customers_tenant_phone = 6

-- `tenantContext`, with the test that the caller's roles make.
unfoldable pub tenant_context : JwtPayload → (Role → Bool) → Db → Result ℕ
tenant_context user allowed db = elim user.sub [
  | malformed _ ↦ err (http (unauthorized invalid_user_context))
  | uuid s ↦ elim user.tenant_id [
    | malformed _ ↦ err (http (unauthorized invalid_user_context))
    | uuid t ↦
        Errors.◌>>=◌
          (Errors.or_raise (find (active_user (lower_case s) (lower_case t) db) db.users)
            (unauthorized user_or_tenant_inactive))
          λ actor.
            Errors.◌>>◌ (Errors.raise_if (not (allowed actor.role)) (forbidden role_not_allowed))
              (ok (lower_case t))
  ]
]

-- `customerId`
unfoldable pub customer_id : IdText → Result ℕ
customer_id (uuid u) = ok (lower_case u)
customer_id (malformed _) = err (http (bad_request invalid_customer_id))

-- `findAll` orders by the name, under the database's collation, and then by the id.
unfoldable pub customer_le : (Text → Text → Bool) → Customer → Customer → Bool
unfolding list_eq
customer_le le a b = if list_eq a.name b.name then leb a.id b.id else le a.name b.name

unfoldable pub find_all_customers : (Text → Text → Bool) → JwtPayload → Tx (List Customer)
unfolding tenant_context customer_le sort
find_all_customers le user = do
  tenant ← reads (tenant_context user is_known)
  gets λ db. sort (customer_le le) (select (λ c. c.tenant_id == tenant) db.customers)

abbrev pub own_customer : ℕ → ℕ → Customer → Bool
own_customer tenant id c = c.id == id && c.tenant_id == tenant

-- `findCustomer`
unfoldable pub find_customer : ℕ → ℕ → Db → Result Customer
find_customer tenant id db =
    Errors.or_raise (find (own_customer tenant id) db.customers) (not_found customer_not_found)

unfoldable pub find_one_customer : JwtPayload → IdText → Tx Customer
unfolding customer_id tenant_context find_customer
find_one_customer user id = do
  customer ← lift (customer_id id)
  tenant ← reads (tenant_context user is_known)
  reads (find_customer tenant customer)

-- `catch` of `customerWrite`
unfoldable pub customer_error : Bool → Failure → Failure
customer_error deleting (prisma (p2002 m)) = http (conflict customer_phone_exists)
customer_error true (prisma p2003) = http (conflict customer_has_transactions)
customer_error deleting e = e

abbrev pub caught : {A : Type 0} → Bool → Result A × Db → Result A × Db
caught deleting (ok a, db) = (ok a, db)
caught deleting (err e, db) = (err (customer_error deleting e), db)

-- `customerWrite`: one transaction, which the database may fail.
unfoldable pub customer_write : {A : Type 0} → Bool → Option Failure → Tx A → Db → Result A × Db
unfolding customer_error run_transaction
customer_write deleting fault m db = caught deleting (run_transaction fault m db)

-- Another customer of the tenant has the phone.
unfoldable pub phone_taken : ℕ → (Customer → Bool) → Option Text → Db → Bool
unfolding list_eq
phone_taken tenant other none db = false
phone_taken tenant other (some p) db =
    any (λ c. other c && c.tenant_id == tenant && same_phone p c.phone) db.customers
  where
    same_phone : Text → Option Text → Bool
    same_phone p none = false
    same_phone p (some q) = list_eq q p

abbrev pub new_customer : ℕ → CreateCustomerDto → Db → Customer
new_customer tenant d db = record {
  id = db.next_id;
  tenant_id = tenant;
  name = d.name;
  phone = d.phone;
  email = d.email;
  created_at = db.clock;
  updated_at = db.clock;
}

abbrev pub add_customer : Customer → Db → Db
add_customer row db = record db { customers = db.customers ++ row ∷ []; next_id = suc db.next_id }

unfoldable pub insert_customer : ℕ → CreateCustomerDto → Tx Customer
unfolding phone_taken
insert_customer tenant d db =
    unless_taken uq_customers_tenant_phone (phone_taken tenant (λ c. true) d.phone db)
      (insert (new_customer tenant d) add_customer) db

unfoldable pub patch_customer : CustomerWriteData → ℕ → Customer → Customer
patch_customer d now c = record c {
  name = get_or d.name c.name;
  phone = get_or d.phone c.phone;
  email = get_or d.email c.email;
  updated_at = now;
}

abbrev pub set_customer : ℕ → ℕ → CustomerWriteData → Db → Db
set_customer tenant id d db = record db {
  customers = update (own_customer tenant id) (patch_customer d db.clock) db.customers;
}

abbrev new_phone_of : Option (Option Text) → Option Text
new_phone_of none = none
new_phone_of (some p) = p

unfoldable pub rewrite_customer : ℕ → ℕ → CustomerWriteData → Tx Customer
unfolding phone_taken patch_customer
rewrite_customer tenant id d db =
    unless_taken uq_customers_tenant_phone
      (phone_taken tenant (λ c. not (c.id == id)) (new_phone_of d.phone) db)
      (change (set_customer tenant id d) (λ x. find (own_customer tenant id) x.customers)) db

unfoldable pub update_found : JwtPayload → ℕ → CustomerWriteData → Tx Customer
unfolding tenant_context find_customer rewrite_customer unless_taken
update_found user id d = do
  tenant ← reads (tenant_context user is_manager)
  reads (find_customer tenant id)
  rewrite_customer tenant id d

-- `String.prototype.toLowerCase` is an argument.
module _ (to_lower_case : Text → Text) where
  -- `create`
  unfoldable pub create_customer :
      Option Failure → JwtPayload → CreateCustomerDto → Db → Result Customer × Db
  unfolding create_data insert_customer customer_write tenant_context unless_taken
  create_customer fault user dto db = elim (create_data to_lower_case dto) [
    | err e ↦ (err e, db)
    | ok d ↦
        customer_write false fault
          (reads (tenant_context user is_manager) >>= λ tenant. insert_customer tenant d) db
  ]

  -- What is checked before the transaction of `update`.
  unfoldable pub update_input : IdText → UpdateCustomerDto → Result (ℕ × CustomerWriteData)
  unfolding customer_id update_data
  update_input id dto =
      Errors.◌>>=◌ (customer_id id)
        λ customer. Errors.◌>>=◌ (update_data to_lower_case dto) λ d. ok (customer, d)

  -- `update`
  unfoldable pub update_customer :
      Option Failure → JwtPayload → IdText → UpdateCustomerDto → Db → Result Customer × Db
  unfolding update_input update_found customer_write
  update_customer fault user id dto db = elim (update_input id dto) [
    | err e ↦ (err e, db)
    | ok (customer, d) ↦ customer_write false fault (update_found user customer d) db
  ]

abbrev pub delete_customer : ℕ → ℕ → Db → Db
delete_customer tenant id db = record db {
  customers = select (λ c. not (own_customer tenant id c)) db.customers;
}

-- The foreign key of the transactions restricts the deletion.
unfoldable pub remove_found : JwtPayload → ℕ → Tx Customer
unfolding tenant_context find_customer unless_referred
remove_found user id = do
  tenant ← reads (tenant_context user is_manager)
  c ← reads (find_customer tenant id)
  db ← gets (λ db. db)
  unless_referred
      (any (λ t. opt_eq t.customer_id (some id) && t.tenant_id == tenant) db.transactions)
      (λ d. ok (c, delete_customer tenant id d))

-- `remove`
unfoldable pub remove_customer : Option Failure → JwtPayload → IdText → Db → Result Customer × Db
unfolding customer_id remove_found customer_write
remove_customer fault user id db = elim (customer_id id) [
  | err e ↦ (err e, db)
  | ok customer ↦ customer_write true fault (remove_found user customer) db
]
