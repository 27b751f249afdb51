-- ===== src/Catalog/Tables.antt =====
-- The constraints of the catalog's tables as PostgreSQL keeps them, the signed-in user of a catalog
-- request, and common/utils/prisma-error.util.ts.
use kasirk_backend.Base.{
  ℕ, Bool, true, false, ◌&&◌, ◌||◌, List, [], ◌∷◌, Option, none, some, if◌then◌else◌, ◌==◌, length,
  all,
}
use kasirk_backend.Base.Text.{Text}
use kasirk_backend.Common.Errors.{
  ok, err, Failure, http, prisma, other_error, PrismaError, p2002, p2003, p2025, UniqueMeta,
  HttpException, Column, tenant_id, client_transaction_id, other_column, Target, other_index,
  columns, other_unique,
}
use kasirk_backend.Database.Rows.{Db}
use kasirk_backend.Database.Client.{Tx}

-- The claims of the access token that the catalog reads.
pub record CatalogUser : Type 0 where
  pub tenant_id : ℕ
  pub outlet_id : Option ℕ

abbrev column_eq : Column → Column → Bool
column_eq tenant_id tenant_id = true
column_eq client_transaction_id client_transaction_id = true
column_eq (other_column a) (other_column b) = a == b
column_eq _ _ = false

abbrev includes_column : Column → List Column → Bool
includes_column c [] = false
includes_column c (x ∷ xs) = column_eq c x || includes_column c xs

-- `target === constraintName`
unfoldable pub names_index : ℕ → Option Target → Bool
names_index n (some (other_index m)) = m == n
names_index n _ = false

-- The array of fields: the target, if it is one, or else the adapter's.
unfoldable pub target_fields : UniqueMeta → Option (List Column)
target_fields m = elim m.target [
  | some t ↦ elim t [ columns cs ↦ some cs | _ ↦ fields_of m.fields ]
  | none ↦ fields_of m.fields
]
  where
    fields_of : Option Target → Option (List Column)
    fields_of (some (columns cs)) = some cs
    fields_of _ = none

unfoldable pub same_fields : List Column → Option (List Column) → Bool
same_fields expected none = false
same_fields expected (some cs) =
    length cs == length expected && all (λ c. includes_column c cs) expected

-- `isUniqueConstraintViolation`
unfoldable pub is_unique_constraint_violation : ℕ → List Column → PrismaError → Bool
unfolding names_index target_fields same_fields
is_unique_constraint_violation n expected (p2002 m) =
    names_index n m.target || names_index n m.index || same_fields expected (target_fields m)
is_unique_constraint_violation n expected _ = false

-- The numbers of the unique indexes.
abbrev pub uq_categories_tenant_name : ℕ
uq_categories_tenant_name = 1

abbrev pub uq_modifier_groups_tenant_name : ℕ
uq_modifier_groups_tenant_name = 2

abbrev pub uq_modifier_options_tenant_group_name : ℕ
uq_modifier_options_tenant_group_name = 3

abbrev pub uq_products_tenant_sku : ℕ
uq_products_tenant_sku = 4

abbrev pub product_modifier_groups_pkey : ℕ
product_modifier_groups_pkey = 5

-- A write that violates a unique index raises, and names the index.
unfoldable pub unless_taken : {A : Type 0} → ℕ → Bool → Tx A → Tx A
unless_taken n true m db = err (prisma (p2002 (other_unique n)))
unless_taken n false m db = m db

-- A delete of a row that others refer to raises.
unfoldable pub unless_referred : {A : Type 0} → Bool → Tx A → Tx A
unless_referred true m db = err (prisma p2003)
unless_referred false m db = m db

-- Prisma's `create`: the new row, and the tables with it.
abbrev pub insert : {A : Type 0} → (Db → A) → (A → Db → Db) → Tx A
insert make add db = ok (make db, add (make db) db)

-- Prisma's `update`: the tables with the change, and the row in them, if there is one.
abbrev pub change : {A : Type 0} → (Db → Db) → (Db → Option A) → Tx A
change f row db = elim (row (f db)) [ some a ↦ ok (a, f db) | none ↦ err (prisma p2025) ]

-- `try { … } catch (error) { … }` with a handler that raises.
abbrev pub catching : {A : Type 0} → (Failure → Failure) → Tx A → Tx A
catching handler m db = elim (m db) [ ok r ↦ ok r | err e ↦ err (handler e) ]

-- The handlers `rethrow…WriteError`: another exception for one violated index.
unfoldable pub rethrow_unique : ℕ → List Column → HttpException → Failure → Failure
unfolding is_unique_constraint_violation
rethrow_unique n expected e (prisma p) =
    if is_unique_constraint_violation n expected p then http e else prisma p
rethrow_unique n expected e (http h) = http h
rethrow_unique n expected e (other_error x) = other_error x

-- The order of texts under the database's collation.
abbrev pub Collation : Type 0
Collation = Text → Text → Bool
