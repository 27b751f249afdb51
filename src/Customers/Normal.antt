-- ===== src/Customers/Normal.antt =====
-- The texts that customers.service.ts stores, and what becomes of them when they are sent again.
use kasirk_backend.Base.{ℕ, ◌≢◌, ◌≡◌, refl, sym, ap, subst, ◌∙◌, [], ◌∷◌, Option, none, some, arith}
use kasirk_backend.Base.Text.{Text, trim}
use kasirk_backend.Common.Errors.{Result, ok, >>=-eq-ok, ok-inj, ◌>>=◌}
use kasirk_backend.Database.Rows.{Customer}
use kasirk_backend.Customers.Data.{
  CreateCustomerDto, UpdateCustomerDto, CustomerWriteData, create_data, update_data, new_name,
  new_phone, new_email, required_text, trimmed, optional_text, map_text, name_field, phone_field,
  email_field,
}
use kasirk_backend.Customers.Store.{patch_customer}
use kasirk_backend.Base.Trim.{trim-trim}

-- A text that is not empty and has no white space at its ends.
abbrev IsNormal : Text → Type 0
IsNormal t = (trim t ≡ t) × (t ≢ [])

pub required_text-at :
    (v t : Text) (field : ℕ) (r : Text) → trim v ≡ t → trimmed t field ≡ ok r → (r ≡ t) × (t ≢ [])
required_text-at v [] field r e h = cc
required_text-at v (c ∷ cs) field r e h = (sym (ok-inj h), λ k. cc)

required_text-IsNormal :
    (v : Text) (field : ℕ) (r : Text) → required_text v field ≡ ok r → IsNormal r
unfolding required_text
required_text-IsNormal v field r h =
    let (same, filled) = required_text-at v (trim v) field r refl h in
    subst IsNormal (sym same) (trim-trim v, filled)

normal-at : (t : Text) (field : ℕ) → t ≢ [] → trimmed t field ≡ ok t
normal-at [] field h = absurd (h refl)
normal-at (c ∷ cs) field h = refl

required_text-normal : (t : Text) (field : ℕ) → IsNormal t → required_text t field ≡ ok t
unfolding required_text
required_text-normal t field (same, filled) =
    ap (λ x. trimmed x field) same ∙ normal-at t field filled

abbrev OptNormal : Option Text → Type 0
OptNormal none = Unit
OptNormal (some t) = IsNormal t

optional_text-OptNormal :
    (o : Option Text) (field : ℕ) (r : Option Text) → optional_text o field ≡ ok r → OptNormal r
unfolding optional_text
optional_text-OptNormal none field r h =
    let base : OptNormal none = tt in subst OptNormal (ok-inj h) base
optional_text-OptNormal (some v) field r h =
    let (t, e, h1) = >>=-eq-ok (required_text v field) _ h in
    subst OptNormal (ok-inj h1) (required_text-IsNormal v field t e)

optional_text-normal : (o : Option Text) (field : ℕ) → OptNormal o → optional_text o field ≡ ok o
unfolding optional_text
optional_text-normal none field h = refl
optional_text-normal (some t) field h =
    ap (λ (r : Result Text). r >>= λ x. ok (some x)) (required_text-normal t field h)

-- What `toLowerCase` is relied on for: it commutes with trimming, empties no text, and does nothing
-- the second time.
pub record IsLowerCase (lower : Text → Text) : Type 0 where
  pub trims : (t : Text) → trim (lower t) ≡ lower (trim t)
  pub fills : (t : Text) → t ≢ [] → lower t ≢ []
  pub twice : (t : Text) → lower (lower t) ≡ lower t

-- An update that gives every field as it is stored.
abbrev pub echo : CreateCustomerDto → UpdateCustomerDto
echo d = record { name = some d.name; phone = some d.phone; email = some d.email }

abbrev pub written : CreateCustomerDto → CustomerWriteData
written d = record { name = some d.name; phone = some d.phone; email = some d.email }

module _ (lower : Text → Text) (is_lower : IsLowerCase lower) where
  lower-OptNormal : (o : Option Text) → OptNormal o → OptNormal (map_text lower o)
  lower-OptNormal none h = tt
  lower-OptNormal (some t) (same, filled) =
      (is_lower.trims t ∙ ap lower same, is_lower.fills t filled)

  map_text-twice : (o : Option Text) → map_text lower (map_text lower o) ≡ map_text lower o
  map_text-twice none = refl
  map_text-twice (some t) = ap (λ (x : Text). some x) (is_lower.twice t)

  pub record IsStored (d : CreateCustomerDto) : Type 0 where
    pub name : IsNormal d.name
    pub phone : OptNormal d.phone
    pub email : OptNormal d.email
    pub lowered : map_text lower d.email ≡ d.email

  create_data-IsStored : (dto d : CreateCustomerDto) → create_data lower dto ≡ ok d → IsStored d
  unfolding create_data
  create_data-IsStored dto d h =
      let (name, e, h1) = >>=-eq-ok (required_text dto.name name_field) _ h in
      let (phone, e', h2) = >>=-eq-ok (optional_text dto.phone phone_field) _ h1 in
      let (email, e'', h3) = >>=-eq-ok (optional_text dto.email email_field) _ h2 in
      subst IsStored (ok-inj h3) (record {
        name = required_text-IsNormal dto.name name_field name e;
        phone = optional_text-OptNormal dto.phone phone_field phone e';
        email = lower-OptNormal email (optional_text-OptNormal dto.email email_field email e'');
        lowered = map_text-twice email;
      })

  update_data-stored :
      (d : CreateCustomerDto) → IsStored d → update_data lower (echo d) ≡ ok (written d)
  unfolding update_data new_name new_phone new_email
  update_data-stored d s = rw (
    required_text-normal d.name name_field s.name,
    optional_text-normal d.phone phone_field s.phone,
    optional_text-normal d.email email_field s.email,
    s.lowered,
  )

  -- An update that sends back the texts that a creation has stored is accepted with the same texts
  -- and changes nothing of the customer but updated_at, if toLowerCase commutes with trimming,
  -- empties no text and does nothing the second time.
  pub update_data-echo :
      (dto d : CreateCustomerDto) (now : ℕ) (c : Customer)
      → create_data lower dto ≡ ok d
      → c.name ≡ d.name
      → c.phone ≡ d.phone
      → c.email ≡ d.email
      → (update_data lower (echo d) ≡ ok (written d))
        × (patch_customer (written d) now c ≡ record c { updated_at = now })
  unfolding patch_customer
  update_data-echo dto d now c h n p e =
      (update_data-stored d (create_data-IsStored dto d h), ground (arith, n, p, e))
