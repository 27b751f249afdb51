-- ===== src/Customers/Patch.antt =====
-- What an update of a customer changes.
use kasirk_backend.Base.{ℕ, ◌≡◌, refl, sym, ap, ap₂, ◌∙◌, Option, none, some}
use kasirk_backend.Base.Text.{Text, trim}
use kasirk_backend.Common.Errors.{ok, ok-inj, >>=-eq-ok, raise_if-eq-ok}
use kasirk_backend.Database.Rows.{Customer}
use kasirk_backend.Transactions.Dto.{get_or}
use kasirk_backend.Customers.Data.{
  UpdateCustomerDto, CustomerWriteData, update_data, new_name, new_phone, new_email, required_text,
  trimmed, optional_text, map_text, name_field, phone_field, email_field,
}
use kasirk_backend.Customers.Normal.{required_text-at}
use kasirk_backend.Customers.Store.{patch_customer}
use kasirk_backend.Customers.Writes.{optional_text-trim, map_text-twice}

-- The value of a field after an update: the old one if the field is absent.
abbrev pub updated : {A B : Type 0} → (A → B) → Option A → B → B
updated f none old = old
updated f (some a) old = f a

module _ (lower : Text → Text) where
  new_name-updated :
      (o : Option Text) (r : Option Text) (old : Text)
      → new_name lower o ≡ ok r
      → get_or r old ≡ updated trim o old
  unfolding new_name required_text
  new_name-updated none r old h = ap (λ x. get_or x old) (sym (ok-inj h))
  new_name-updated (some n) r old h =
      let (t, e, h1) = >>=-eq-ok (trimmed (trim n) name_field) _ h in
      ap (λ x. get_or x old) (sym (ok-inj h1)) ∙ (required_text-at n (trim n) name_field t refl e).0

  new_phone-updated :
      (o : Option (Option Text)) (r : Option (Option Text)) (old : Option Text)
      → new_phone lower o ≡ ok r
      → get_or r old ≡ updated (map_text trim) o old
  unfolding new_phone
  new_phone-updated none r old h = ap (λ x. get_or x old) (sym (ok-inj h))
  new_phone-updated (some p) r old h =
      let (t, e, h1) = >>=-eq-ok (optional_text p phone_field) _ h in
      ap (λ x. get_or x old) (sym (ok-inj h1)) ∙ optional_text-trim p phone_field t e

  new_email-updated :
      (o : Option (Option Text)) (r : Option (Option Text)) (old : Option Text)
      → new_email lower o ≡ ok r
      → get_or r old ≡ updated (map_text (λ t. lower (trim t))) o old
  unfolding new_email
  new_email-updated none r old h = ap (λ x. get_or x old) (sym (ok-inj h))
  new_email-updated (some p) r old h =
      let (t, e, h1) = >>=-eq-ok (optional_text p email_field) _ h in
      ap (λ x. get_or x old) (sym (ok-inj h1))
      ∙ ap (map_text lower) (optional_text-trim p email_field t e)
      ∙ map_text-twice lower trim p

  -- An accepted update keeps the name, the phone or the email that the request leaves out, clears
  -- a phone or an email for which it sends null, and otherwise stores the text sent, trimmed, the
  -- email also in lower case; updated_at becomes the given time and nothing else of the customer
  -- changes.
  pub update_data-updated :
      (dto : UpdateCustomerDto) (d : CustomerWriteData) (now : ℕ) (c : Customer)
      → update_data lower dto ≡ ok d
      → patch_customer d now c ≡ record c {
        name = updated trim dto.name c.name;
        phone = updated (map_text trim) dto.phone c.phone;
        email = updated (map_text (λ t. lower (trim t))) dto.email c.email;
        updated_at = now;
      }
  unfolding update_data patch_customer
  update_data-updated dto d now c h =
      let (name, named, h1) = >>=-eq-ok (new_name lower dto.name) _ h in
      let (phone, phoned, h2) = >>=-eq-ok (new_phone lower dto.phone) _ h1 in
      let (email, mailed, h3) = >>=-eq-ok (new_email lower dto.email) _ h2 in
      let (_, h4) = raise_if-eq-ok _ _ _ h3 in
      ap (λ (x : CustomerWriteData). patch_customer x now c) (sym (ok-inj h4))
      ∙ ap
          (λ (n : Text). record c {
            name = n;
            phone = get_or phone c.phone;
            email = get_or email c.email;
            updated_at = now;
          })
          (new_name-updated dto.name name c.name named)
      ∙ ap₂
          (λ (p : Option Text) (e : Option Text). record c {
            name = updated trim dto.name c.name;
            phone = p;
            email = e;
            updated_at = now;
          })
          (new_phone-updated dto.phone phone c.phone phoned)
          (new_email-updated dto.email email c.email mailed)
