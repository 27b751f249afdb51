-- ===== src/Catalog/Steps.antt =====
-- The writes of catalog requests as one relation: what one request may do to the tables.
use kasirk_backend.Base.{
  ℕ, ◌≡◌, refl, sym, subst, ◌∙◌, Bool, true, false, ◌&&◌, not, List, [], ◌∷◌, ◌++◌, Option, none,
  some, ◌==◌, opt_eq, find, any, select, update, All,
}
use kasirk_backend.Base.Text.{Text}
use kasirk_backend.Common.Errors.{Result, ok, err, Failure, prisma, p2025, HttpException, ok-pair}
use kasirk_backend.Database.Rows.{
  Db, Category, ModifierGroup, ModifierOption, ProductModifierGroup, is_single,
}
use kasirk_backend.Database.Client.{
  Tx, ◌>>=◌, pure, gets, modify, lift, raise_if, or_raise, bind-ok, lift-ok, raise_if-ok,
}
use kasirk_backend.Catalog.Tables.{
  CatalogUser, insert, change, unless_taken, unless_referred, catching,
}
use kasirk_backend.Catalog.Categories.{own_category, new_category, add_category, rename}
use kasirk_backend.Catalog.Groups.{
  CreateModifierGroupDto, CreateModifierOptionDto, new_group, add_group, set_group, new_option,
  add_option, own_option, set_option,
}
use kasirk_backend.Catalog.Products.{
  CreateProductDto, UpdateProductDto, new_product, add_product, set_product, patch_product,
}
use kasirk_backend.Catalog.Assignments.{Checked, assigned, assignment_row, replace_rows}

-- The category is none, or one of the tenant's.
abbrev pub IsCategory : CatalogUser → Option ℕ → Db → Type 0
IsCategory user none db = Unit
IsCategory user (some id) db = any (own_category user id) db.categories ≡ true

-- A product's category stays, or becomes one of the tenant's.
abbrev pub IsPatch : CatalogUser → Option (Option ℕ) → Db → Type 0
IsPatch user none db = Unit
IsPatch user (some c) db = IsCategory user c db

-- A required group takes a single option.
abbrev pub IsSupported : Checked → Type 0
IsSupported c = (c.required && not (is_single c.selection_type)) ≡ false

-- A change of a group or of an option that keeps its ids.
abbrev pub SameGroup : (ModifierGroup → ModifierGroup) → Type 0
SameGroup f = (g : ModifierGroup) → ((f g).id ≡ g.id) × ((f g).tenant_id ≡ g.tenant_id)

abbrev pub SameOption : (ModifierOption → ModifierOption) → Type 0
SameOption f = (o : ModifierOption) → ((f o).id ≡ o.id) × ((f o).tenant_id ≡ o.tenant_id)

abbrev pub delete_rows : ℕ → Db → Db
delete_rows id db = record db { categories = select (λ c. not (c.id == id)) db.categories }

abbrev pub set_assignments : (List ProductModifierGroup → List ProductModifierGroup) → Db → Db
set_assignments f db = record db { product_modifier_groups = f db.product_modifier_groups }

pub data CatalogStep (user : CatalogUser) : Db → Db → Type 0 where
  unchanged : (db : Db) → CatalogStep user db db
  category_added :
      (db : Db) (name : Text)
      → CatalogStep user db (add_category (new_category user.tenant_id name db) db)
  category_renamed :
      (db : Db) (id : ℕ) (name : Text) (c : Category)
      → find (own_category user id) db.categories ≡ some c
      → CatalogStep user db (rename id name db)
  category_deleted :
      (db : Db) (id : ℕ) (c : Category)
      → find (own_category user id) db.categories ≡ some c
      → any (λ p. opt_eq p.category_id (some id)) db.products ≡ false
      → CatalogStep user db (delete_rows id db)
  group_added :
      (db : Db) (dto : CreateModifierGroupDto)
      → CatalogStep user db (add_group (new_group user.tenant_id dto db) db)
  group_set :
      (db : Db) (id : ℕ) (f : ModifierGroup → ModifierGroup)
      → SameGroup f
      → CatalogStep user db (set_group user.tenant_id id f db)
  option_added :
      (db : Db) (group : ℕ) (dto : CreateModifierOptionDto)
      → CatalogStep user db (add_option (new_option user.tenant_id group dto db) db)
  option_set :
      (db : Db) (group id : ℕ) (f : ModifierOption → ModifierOption) (o : ModifierOption)
      → SameOption f
      → find (own_option user.tenant_id group id) db.modifier_options ≡ some o
      → CatalogStep user db (set_option id f db)
  product_added :
      (db : Db) (dto : CreateProductDto)
      → IsCategory user dto.category_id db
      → CatalogStep user db (add_product (new_product user.tenant_id dto db) db)
  product_set :
      (db : Db) (id : ℕ) (dto : UpdateProductDto)
      → IsPatch user dto.category_id db
      → CatalogStep user db (set_product user.tenant_id id (patch_product dto) db)
  assignments_replaced :
      (db : Db) (product : ℕ) (cs : List Checked)
      → All IsSupported cs
      → CatalogStep user db (set_assignments (replace_rows user.tenant_id product cs) db)
  assignment_added :
      (db : Db) (product : ℕ) (c : Checked)
      → IsSupported c
      → CatalogStep user db
          (set_assignments (λ rows. rows ++ assignment_row user.tenant_id product c ∷ []) db)
  assignment_set :
      (db : Db) (product group : ℕ) (c : Checked)
      → IsSupported c
      → CatalogStep user db (
          set_assignments
            (update
              (assigned user.tenant_id product group)
              (λ a. assignment_row user.tenant_id product c))
            db)
  assignment_removed :
      (db : Db) (product group : ℕ)
      → CatalogStep user db
          (set_assignments (select (λ r. not (assigned user.tenant_id product group r))) db)

module _ (user : CatalogUser) where
  -- What succeeds on a database makes a step from it.
  abbrev pub Steps : {A : Type 0} → Tx A → Db → Type 0
  Steps {A} m db = (a : A) (db' : Db) → m db ≡ ok (a, db') → CatalogStep user db db'

  -- What succeeds leaves the database as it is.
  abbrev pub Reads : {A : Type 0} → Tx A → Type 0
  Reads {A} m = (db : Db) (a : A) (db' : Db) → m db ≡ ok (a, db') → db' ≡ db

  pub Steps-read :
      {A B : Type 0} (m : Tx A) (k : A → Tx B) (db : Db)
      → Reads m
      → ((a : A) → m db ≡ ok (a, db) → Steps (k a) db)
      → Steps (m >>= k) db
  Steps-read m k db r s b db'' h =
      let (a, d, h1, h2) = bind-ok m k db h in
      let same = r db a d h1 in
      s a (subst (λ x. m db ≡ ok (a, x)) same h1) b db'' (subst (λ x. k a x ≡ ok (b, db'')) same h2)

  pub Steps-catching :
      {A : Type 0} (handler : Failure → Failure) (m : Tx A) (db : Db)
      → Steps m db
      → Steps (catching handler m) db
  Steps-catching {A} handler m db s a db' h = go (m db) refl h
    where
      go :
          (r : Result (A × Db))
          → m db ≡ r
          → (elim r [ ok x ↦ ok x | err e ↦ err (handler e) ]) ≡ ok (a, db')
          → CatalogStep user db db'
      go (ok x) e k = s a db' (e ∙ k)
      go (err x) e k = cc

  pub Steps-unless_taken :
      {A : Type 0} (n : ℕ) (t : Bool) (m : Tx A) (db : Db)
      → Steps m db
      → Steps (unless_taken n t m) db
  unfolding unless_taken
  Steps-unless_taken n true m db s a db' h = cc
  Steps-unless_taken n false m db s a db' h = s a db' h

  pub Steps-unless_referred :
      {A : Type 0} (t : Bool) (f : Db → Db) (a : A) (db : Db)
      → (t ≡ false → CatalogStep user db (f db))
      → Steps (unless_referred t (modify f) >>= λ _. pure a) db
  unfolding unless_referred
  Steps-unless_referred true f a db s x db' h = cc
  Steps-unless_referred false f a db s x db' h = subst (CatalogStep user db) (ok-pair h).1 (s refl)

  -- `if (test) throw error`, and what follows.
  pub Steps-guard :
      {B : Type 0} (t : Bool) (e : HttpException) (k : Tx B) (db : Db)
      → (t ≡ false → Steps k db)
      → Steps (raise_if t e >>= λ _. k) db
  Steps-guard true e k db s a db' h = cc
  Steps-guard false e k db s a db' h = s refl a db' h

  pub Steps-insert :
      {A : Type 0} (make : Db → A) (add : A → Db → Db) (db : Db)
      → CatalogStep user db (add (make db) db)
      → Steps (insert make add) db
  Steps-insert make add db s a db' h = subst (CatalogStep user db) (ok-pair h).1 s

  pub Steps-change :
      {A : Type 0} (f : Db → Db) (row : Db → Option A) (db : Db)
      → CatalogStep user db (f db)
      → Steps (change f row) db
  Steps-change {A} f row db s a db' h = go (row (f db)) h
    where
      go :
          (o : Option A)
          → ◌≡◌ {A = Result (A × Db)}
              (elim o [ some x ↦ ok (x, f db) | none ↦ err (prisma p2025) ])
              (ok (a, db'))
          → CatalogStep user db db'
      go none k = cc
      go (some x) k = subst (CatalogStep user db) (ok-pair k).1 s

  pub Steps-modify :
      {A : Type 0} (f : Db → Db) (a : A) (db : Db)
      → CatalogStep user db (f db)
      → Steps (modify f >>= λ _. pure a) db
  Steps-modify f a db s x db' h = subst (CatalogStep user db) (ok-pair h).1 s

  pub Reads-gets : {A : Type 0} (f : Db → A) → Reads (gets f)
  Reads-gets f db a db' h = sym (ok-pair h).1

  pub Reads-lift : {A : Type 0} (r : Result A) → Reads (lift r)
  Reads-lift r db a db' h = (lift-ok r db h).1

  pub Reads-raise_if : (t : Bool) (e : HttpException) → Reads (raise_if t e)
  Reads-raise_if t e db a db' h = (raise_if-ok t e db h).1

  pub Reads-or_raise : {A : Type 0} (o : Option A) (e : HttpException) → Reads (or_raise o e)
  Reads-or_raise none e db a db' h = cc
  Reads-or_raise (some x) e db a db' h = sym (ok-pair h).1

  pub Reads-pure : {A : Type 0} (x : A) → Reads (pure x)
  Reads-pure x db a db' h = sym (ok-pair h).1

  pub Reads-bind :
      {A B : Type 0} (m : Tx A) (k : A → Tx B) → Reads m → ((a : A) → Reads (k a)) → Reads (m >>= k)
  Reads-bind m k r s db b db'' h =
      let (a, d, h1, h2) = bind-ok m k db h in s a d b db'' h2 ∙ r db a d h1
