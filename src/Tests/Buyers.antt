-- ===== src/Tests/Buyers.antt =====
-- Customers of the sample shop, and a manager who keeps them.
use kasirk_backend.Base.{ℕ, ◌≡◌, refl, true, false, any, ◌⊎◌, [], ◌∷◌, some, none}
use kasirk_backend.Base.Sort.{list_eq}
use kasirk_backend.Base.Text.{Text, IdText, uuid, trim}
use kasirk_backend.Common.Errors.{ok, err, http, conflict, customer_phone_exists}
use kasirk_backend.Common.Roles.{owner, is_manager}
use kasirk_backend.Database.Rows.{Db, Customer, completed}
use kasirk_backend.Transactions.Create.{JwtPayload}
use kasirk_backend.Customers.Data.{
  CreateCustomerDto, UpdateCustomerDto, CustomerWriteData, create_data, update_data,
}
use kasirk_backend.Customers.Store.{create_customer, tenant_context, patch_customer, customer_id}
use kasirk_backend.Customers.History.{
  HistoryResponse, transaction_history, IsHistory, transaction_history-IsHistory,
}
use kasirk_backend.Customers.Writes.{has_phone, IsAdded, create_customer-phone}
use kasirk_backend.Customers.Patch.{update_data-updated}
use kasirk_backend.Customers.Normal.{IsLowerCase, echo, written, update_data-echo}
use kasirk_backend.Tests.Sample.{shop, cashier_row}

abbrev budi : Customer
budi = record {
  id = 60;
  tenant_id = 1;
  name = 66 ∷ [];
  phone = some (48 ∷ 56 ∷ []);
  email = none;
  created_at = 10;
  updated_at = 10;
}

abbrev office : Db
office = record shop {
  users = record cashier_row { id = 5; role = owner } ∷ [];
  customers = budi ∷ [];
  transactions =
      record {
        id = 70;
        tenant_id = 1;
        outlet_id = 3;
        user_id = 2;
        customer_id = some 60;
        cashier_session_id = none;
        client_transaction_id = 71;
        status = completed;
        subtotal = 5000;
        discount = 0;
        tax = 500;
        total = 5500;
        created_at = 80;
      }
      ∷ [];
}

abbrev manager : JwtPayload
manager = record {
  sub = uuid (record { value = 5; casing = 0 });
  tenant_id = uuid (record { value = 1; casing = 0 });
}

abbrev request : CreateCustomerDto
request = record { name = 32 ∷ 67 ∷ []; phone = some (48 ∷ 56 ∷ 32 ∷ []); email = none }

abbrev cleaned : CreateCustomerDto
cleaned = record { name = 67 ∷ []; phone = some (48 ∷ 56 ∷ []); email = none }

abbrev same_case : Text → Text
same_case t = t

request-cleaned : create_data same_case request ≡ ok cleaned
unfolding create_data trim
request-cleaned = refl

manager_allowed : tenant_context manager is_manager office ≡ ok 1
unfolding tenant_context
manager_allowed = refl

create_customer-phone_example :
    (any (has_phone 1 (some (48 ∷ 56 ∷ []))) office.customers ≡ true)
      × (create_customer same_case none manager request office
          ≡ (err (http (conflict customer_phone_exists)), office))
    ⊎ (any (has_phone 1 (some (48 ∷ 56 ∷ []))) office.customers ≡ false)
      × (c : Customer) × (db : Db) × (create_customer same_case none manager request office
          ≡ (ok c, db))
      × IsAdded same_case 1 request office c db
unfolding trim
create_customer-phone_example =
    create_customer-phone same_case manager request cleaned 1 office request-cleaned manager_allowed

phone_is_taken : any (has_phone 1 (some (48 ∷ 56 ∷ []))) office.customers ≡ true
unfolding list_eq
phone_is_taken = refl

same_case-IsLowerCase : IsLowerCase same_case
same_case-IsLowerCase = record { trims = λ t. refl; fills = λ t filled. filled; twice = λ t. refl }

abbrev cici : Customer
cici = record budi { name = 67 ∷ [] }

update_data-echo_example :
    (update_data same_case (echo cleaned) ≡ ok (written cleaned))
    × (patch_customer (written cleaned) 99 cici ≡ record cici { updated_at = 99 })
update_data-echo_example =
    update_data-echo same_case same_case-IsLowerCase request cleaned 99 cici request-cleaned refl
      refl refl

abbrev reachable : Customer
reachable = record cici { email = some (67 ∷ 64 ∷ 67 ∷ []) }

abbrev nulls : UpdateCustomerDto
nulls = record { name = none; phone = some none; email = some none }

abbrev nulls_data : CustomerWriteData
nulls_data = record { name = none; phone = some none; email = some none }

nulls_accepted : update_data same_case nulls ≡ ok nulls_data
unfolding update_data
nulls_accepted = refl

update_data-updated_example :
    patch_customer nulls_data 99 reachable
    ≡ record reachable { phone = none; email = none; updated_at = 99 }
update_data-updated_example =
    update_data-updated same_case nulls nulls_data 99 reachable nulls_accepted

abbrev history : HistoryResponse
history = record {
  customer_id = 60;
  transactions =
      record {
        transaction_id = 70;
        outlet_id = 3;
        user_id = 2;
        subtotal = 5000;
        discount = 0;
        tax = 500;
        total = 5500;
        created_at = 80;
      }
      ∷ [];
  total_transactions = 1;
  total_spending = 5500;
}

abbrev budi_id : IdText
budi_id = uuid (record { value = 60; casing = 2 })

history_run : transaction_history manager budi_id office ≡ ok (history, office)
unfolding transaction_history
history_run = refl

transaction_history-IsHistory_example :
    (customer : ℕ) × (tenant : ℕ) × (customer_id budi_id ≡ ok customer)
    × (tenant_context manager is_manager office ≡ ok tenant)
    × IsHistory tenant customer office history
transaction_history-IsHistory_example =
    transaction_history-IsHistory manager budi_id office history office history_run
