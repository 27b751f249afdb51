-- ===== src/Customers/Data.antt =====
-- The texts of customers.service.ts: the requests, `createData` and `updateData`.
use kasirk_backend.Base.{ℕ, ◌&&◌, Bool, true, false, [], ◌∷◌, Option, none, some}
use kasirk_backend.Base.Text.{Text, trim}
use kasirk_backend.Common.Errors
use kasirk_backend.Common.Errors.{
  Result, ok, err, Failure, http, prisma, other_error, p2002, p2003, p2025, HttpException,
  bad_request, unauthorized, forbidden, conflict, not_found, internal_error, invalid_user_context,
  user_or_tenant_inactive, role_not_allowed, customer_not_found, cannot_be_blank,
  customer_field_required, invalid_customer_id, customer_phone_exists, customer_has_transactions,
  customer_value_out_of_range,
}

-- The numbers of the fields that a message names.
abbrev pub name_field : ℕ
name_field = 0

abbrev pub phone_field : ℕ
phone_field = 1

abbrev pub email_field : ℕ
email_field = 2

pub record CreateCustomerDto : Type 0 where
  pub name : Text
  pub phone : Option Text
  pub email : Option Text

-- `none` is `undefined`; the phone and the email may also be null.
pub record UpdateCustomerDto : Type 0 where
  pub name : Option Text
  pub phone : Option (Option Text)
  pub email : Option (Option Text)

-- `requiredText` and `optionalText`
abbrev pub trimmed : Text → ℕ → Result Text
trimmed [] field = err (http (bad_request (cannot_be_blank field)))
trimmed (c ∷ cs) field = ok (c ∷ cs)

unfoldable pub required_text : Text → ℕ → Result Text
unfolding trim
required_text value field = trimmed (trim value) field

unfoldable pub optional_text : Option Text → ℕ → Result (Option Text)
unfolding required_text
optional_text none field = ok none
optional_text (some value) field = Errors.◌>>=◌ (required_text value field) λ t. ok (some t)

abbrev pub map_text : (Text → Text) → Option Text → Option Text
map_text f none = none
map_text f (some t) = some (f t)

-- What is written: the values of the fields that are given.
pub record CustomerWriteData : Type 0 where
  pub name : Option Text
  pub phone : Option (Option Text)
  pub email : Option (Option Text)

-- `String.prototype.toLowerCase` is an argument.
module _ (to_lower_case : Text → Text) where
  -- `createData`
  unfoldable pub create_data : CreateCustomerDto → Result CreateCustomerDto
  unfolding required_text optional_text
  create_data dto = Errors.◌>>=◌ (required_text dto.name name_field) λ name.
      Errors.◌>>=◌ (optional_text dto.phone phone_field) λ phone.
        Errors.◌>>=◌ (optional_text dto.email email_field)
          λ email. ok (record { name = name; phone = phone; email = map_text to_lower_case email })

  unfoldable pub new_name : Option Text → Result (Option Text)
  unfolding required_text
  new_name none = ok none
  new_name (some n) = Errors.◌>>=◌ (required_text n name_field) λ t. ok (some t)

  unfoldable pub new_phone : Option (Option Text) → Result (Option (Option Text))
  unfolding optional_text
  new_phone none = ok none
  new_phone (some p) = Errors.◌>>=◌ (optional_text p phone_field) λ t. ok (some t)

  -- `optionalText(...)?.toLowerCase() ?? null`
  unfoldable pub new_email : Option (Option Text) → Result (Option (Option Text))
  unfolding optional_text
  new_email none = ok none
  new_email (some e) =
      Errors.◌>>=◌ (optional_text e email_field) λ t. ok (some (map_text to_lower_case t))

  abbrev no_data : CustomerWriteData → Bool
  no_data d = absent d.name && absent d.phone && absent d.email
    where
      absent : {A : Type 0} → Option A → Bool
      absent none = true
      absent (some a) = false

  -- `updateData`
  unfoldable pub update_data : UpdateCustomerDto → Result CustomerWriteData
  unfolding new_name new_phone new_email
  update_data dto = Errors.◌>>=◌ (new_name dto.name) λ name.
      Errors.◌>>=◌ (new_phone dto.phone) λ phone. Errors.◌>>=◌ (new_email dto.email) λ email.
        let d : CustomerWriteData = record { name = name; phone = phone; email = email } in
        Errors.◌>>◌ (Errors.raise_if (no_data d) (bad_request customer_field_required)) (ok d)
