-- ===== src/Customers/Writes.antt =====
-- `create` of customers.service.ts and the phones of the tenant.
use kasirk_backend.Base.{
  ℕ, suc, ◌≡◌, refl, sym, subst, ap, ◌∙◌, Bool, true, false, ◌&&◌, List, [], ◌∷◌, ◌++◌, Option,
  none, some, arith, ◌==◌, any, ◌⊎◌, inl, inr, Bool-cases,
}
use kasirk_backend.Base.Text.{Text, trim}
use kasirk_backend.Base.Sort.{list_eq}
use kasirk_backend.Common.Errors.{
  Result, ok, err, http, conflict, customer_phone_exists, ok-inj, >>=-eq-ok,
}
use kasirk_backend.Common.Roles.{is_manager}
use kasirk_backend.Database.Rows.{Db, Customer}
use kasirk_backend.Database.Client.{reads, lift, ◌>>=◌}
use kasirk_backend.Database.Retry.{run_transaction, finish}
use kasirk_backend.Transactions.Create.{JwtPayload}
use kasirk_backend.Catalog.Tables.{unless_taken, insert}
use kasirk_backend.Customers.Data.{
  CreateCustomerDto, create_data, optional_text, required_text, trimmed, map_text, name_field,
  phone_field, email_field,
}
use kasirk_backend.Customers.Normal.{required_text-at}
use kasirk_backend.Customers.Store.{
  create_customer, customer_write, customer_error, caught, tenant_context, insert_customer,
  new_customer, add_customer, phone_taken, uq_customers_tenant_phone,
}

-- A customer of the tenant whose phone is the given one.
abbrev pub is_phone : Option Text → Option Text → Bool
is_phone (some p) (some q) = list_eq q p
is_phone _ _ = false

abbrev pub has_phone : ℕ → Option Text → Customer → Bool
has_phone tenant phone c = c.tenant_id == tenant && is_phone phone c.phone

-- The customer that a request asks for, added at the end of the table.
pub record IsAdded (lower : Text → Text) (tenant : ℕ) (dto : CreateCustomerDto) (db : Db)
    (c : Customer) (db' : Db) : Type 0 where
  pub id_eq : c.id ≡ db.next_id
  pub tenant_eq : c.tenant_id ≡ tenant
  pub name_eq : c.name ≡ trim dto.name
  pub phone_eq : c.phone ≡ map_text trim dto.phone
  pub email_eq : c.email ≡ map_text (λ t. lower (trim t)) dto.email
  pub times : (c.created_at ≡ db.clock) × (c.updated_at ≡ db.clock)
  pub stored : db' ≡ record db { customers = db.customers ++ c ∷ []; next_id = suc db.next_id }

-- The cleaned texts of a request.
record IsCleaned (lower : Text → Text) (dto d : CreateCustomerDto) : Type 0 where
  name_eq : d.name ≡ trim dto.name
  phone_eq : d.phone ≡ map_text trim dto.phone
  email_eq : d.email ≡ map_text (λ t. lower (trim t)) dto.email

pub optional_text-trim :
    (o : Option Text) (field : ℕ) (r : Option Text)
    → optional_text o field ≡ ok r
    → r ≡ map_text trim o
unfolding optional_text required_text
optional_text-trim none field r h = sym (ok-inj h)
optional_text-trim (some v) field r h =
    let (t, e, h1) = >>=-eq-ok (trimmed (trim v) field) _ h in
    sym (ok-inj h1) ∙ ap some (required_text-at v (trim v) field t refl e).0

pub map_text-twice :
    (f g : Text → Text) (o : Option Text) → map_text f (map_text g o) ≡ map_text (λ t. f (g t)) o
map_text-twice f g none = refl
map_text-twice f g (some t) = refl

create_data-IsCleaned :
    (lower : Text → Text) (dto d : CreateCustomerDto)
    → create_data lower dto ≡ ok d
    → IsCleaned lower dto d
unfolding create_data required_text
create_data-IsCleaned lower dto d h =
    let (name, named, h1) = >>=-eq-ok (trimmed (trim dto.name) name_field) _ h in
    let (phone, phoned, h2) = >>=-eq-ok (optional_text dto.phone phone_field) _ h1 in
    let (email, mailed, h3) = >>=-eq-ok (optional_text dto.email email_field) _ h2 in
    subst (IsCleaned lower dto) (ok-inj h3) (record {
      name_eq = (required_text-at dto.name (trim dto.name) name_field name refl named).0;
      phone_eq = optional_text-trim dto.phone phone_field phone phoned;
      email_eq =
          ap (map_text lower) (optional_text-trim dto.email email_field email mailed)
          ∙ map_text-twice lower trim dto.email;
    })

any-const_false :
    {A : Type 0} (p : A → Bool) (xs : List A) → ((x : A) → p x ≡ false) → any p xs ≡ false
any-const_false p [] h = refl
any-const_false p (x ∷ xs) h = ground (arith, h x, any-const_false p xs h)

any-agree :
    {A : Type 0} (p q : A → Bool) (xs : List A) → ((x : A) → p x ≡ q x) → any p xs ≡ any q xs
any-agree p q [] h = refl
any-agree p q (x ∷ xs) h = ground (arith, h x, any-agree p q xs h)

phone_taken-has_phone :
    (tenant : ℕ) (phone : Option Text) (db : Db)
    → phone_taken tenant (λ c. true) phone db ≡ any (has_phone tenant phone) db.customers
unfolding phone_taken
phone_taken-has_phone tenant none db =
    sym (any-const_false (has_phone tenant none) db.customers (λ c. ground arith))
phone_taken-has_phone tenant (some p) db =
    any-agree _ (has_phone tenant (some p)) db.customers (λ c. refl)

-- The answer to an insertion, by whether the phone is taken.
abbrev answer : Bool → ℕ → CreateCustomerDto → Db → Result Customer × Db
answer true tenant d db = (err (http (conflict customer_phone_exists)), db)
answer false tenant d db =
    (ok (new_customer tenant d db), add_customer (new_customer tenant d db) db)

insert_customer-answer :
    (tenant : ℕ) (d : CreateCustomerDto) (db : Db)
    → caught false (finish (insert_customer tenant d db) db)
      ≡ answer (phone_taken tenant (λ c. true) d.phone db) tenant d db
unfolding insert_customer unless_taken customer_error
insert_customer-answer tenant d db = at (phone_taken tenant (λ c. true) d.phone db)
  where
    at :
        (t : Bool)
        → caught false (
            finish
              (unless_taken uq_customers_tenant_phone t
                (insert (new_customer tenant d) add_customer)
                db)
              db)
          ≡ answer t tenant d db
    at true = refl
    at false = refl

module _ (lower : Text → Text) where
  create_customer-answer :
      (user : JwtPayload) (dto d : CreateCustomerDto) (tenant : ℕ) (db : Db)
      → create_data lower dto ≡ ok d
      → tenant_context user is_manager db ≡ ok tenant
      → create_customer lower none user dto db
        ≡ answer (phone_taken tenant (λ c. true) d.phone db) tenant d db
  unfolding create_customer customer_write run_transaction
  create_customer-answer user dto d tenant db valid allowed =
      ap
        (λ (r : Result CreateCustomerDto). elim r as (λ _. Result Customer × Db) [
          | err e ↦ (err e, db)
          | ok x ↦
              customer_write false none
                (reads (tenant_context user is_manager) >>= λ t. insert_customer t x) db
        ])
        valid
      ∙ ap (λ (r : Result ℕ). caught false (finish ((lift r >>= λ t. insert_customer t d) db) db))
          allowed
      ∙ insert_customer-answer tenant d db

  -- The request of a manager whose texts are valid, on a database that fails nothing: if a
  -- customer of the tenant has the trimmed phone, it is refused with CUSTOMER_PHONE_EXISTS and
  -- writes nothing; otherwise it adds one customer of the tenant and answers with it, the name and
  -- the phone trimmed, the email trimmed and in lower case, both times the clock.
  pub create_customer-phone :
      (user : JwtPayload) (dto d : CreateCustomerDto) (tenant : ℕ) (db : Db)
      → create_data lower dto ≡ ok d
      → tenant_context user is_manager db ≡ ok tenant
      → (any (has_phone tenant (map_text trim dto.phone)) db.customers ≡ true)
          × (create_customer lower none user dto db
              ≡ (err (http (conflict customer_phone_exists)), db))
        ⊎ (any (has_phone tenant (map_text trim dto.phone)) db.customers ≡ false)
          × (c : Customer) × (db' : Db) × (create_customer lower none user dto db ≡ (ok c, db'))
          × IsAdded lower tenant dto db c db'
  create_customer-phone user dto d tenant db valid allowed =
      let texts = create_data-IsCleaned lower dto d valid in
      let run = create_customer-answer user dto d tenant db valid allowed in
      let taken =
        phone_taken-has_phone tenant d.phone db
        ∙ ap (λ o. any (has_phone tenant o) db.customers) texts.phone_eq in
      elim (Bool-cases (any (has_phone tenant (map_text trim dto.phone)) db.customers)) [
        | inl e ↦ inl (e, run ∙ ap (λ t. answer t tenant d db) (taken ∙ e))
        | inr e ↦ inr (
          e,
          new_customer tenant d db,
          add_customer (new_customer tenant d db) db,
          run ∙ ap (λ t. answer t tenant d db) (taken ∙ e),
          record {
            id_eq = refl;
            tenant_eq = refl;
            name_eq = texts.name_eq;
            phone_eq = texts.phone_eq;
            email_eq = texts.email_eq;
            times = (refl, refl);
            stored = refl;
          },
        )
      ]
