-- ===== src/Auth/Login.antt =====
-- `login`, `resolveStore` and `getCurrentUser` of auth.service.ts.
use kasirk_backend.Base.{
  ℕ, Bool, false, ◌&&◌, not, List, map, Option, none, some, if◌then◌else◌, ◌==◌, ltb, find, select,
  any,
}
use kasirk_backend.Base.Sort.{sort, list_eq}
use kasirk_backend.Base.Text.{Text, Uuid, lower_case}
use kasirk_backend.Common.Errors.{
  Result, ok, ◌>>=◌, ◌>>◌, raise_if, or_raise, unauthorized, not_found, wrong_password,
  store_not_found, current_user_unavailable,
}
use kasirk_backend.Common.Roles.{Role}
use kasirk_backend.Database.Rows.{Db, User}
use kasirk_backend.Auth.Tokens.{Crypto, claims}

pub record LoginDto : Type 0 where
  pub email : Text
  pub password : Text
  pub tenant_id : Uuid

abbrev pub has_text : Text → Option Text → Bool
has_text t none = false
has_text t (some s) = list_eq s t

-- `login`
unfoldable pub login : Crypto → LoginDto → Db → Result Text
unfolding list_eq claims
login c dto db = do
  user ←
      or_raise
        (find (λ u. u.tenant_id == lower_case dto.tenant_id && list_eq u.email dto.email) db.users)
        (unauthorized wrong_password)
  raise_if (not user.is_active) (unauthorized wrong_password)
  raise_if (not (c.compare dto.password user.password_hash)) (unauthorized wrong_password)
  ok (c.sign (claims user))

pub record StoreUser : Type 0 where
  pub id : ℕ
  pub name : Text
  pub role : Role
  pub outlet_id : Option ℕ

pub record Store : Type 0 where
  pub id : ℕ
  pub name : Text
  pub users : List StoreUser

unfoldable pub store_user : User → StoreUser
store_user u = record { id = u.id; name = u.name; role = u.role; outlet_id = u.outlet_id }

-- `orderBy: [{ name: 'asc' }, { id: 'asc' }]`
-- under the database's collation.
unfoldable pub by_name : (Text → Text → Bool) → User → User → Bool
unfolding list_eq
by_name le a b = if list_eq a.name b.name then not (ltb b.id a.id) else le a.name b.name

-- `resolveStore`
unfoldable pub resolve_store : (Text → Text → Bool) → Text → Db → Result Store
unfolding sort by_name store_user
resolve_store le code db = do
  tenant ←
      or_raise (find (λ t. has_text code t.store_code && t.is_active) db.tenants)
        (not_found store_not_found)
  ok (record {
    id = tenant.id;
    name = tenant.name;
    users =
        map store_user
          (sort (by_name le) (select (λ u. u.tenant_id == tenant.id && u.is_active) db.users));
  })

pub record CurrentUser : Type 0 where
  pub id : ℕ
  pub name : Text
  pub role : Role
  pub tenant_id : ℕ
  pub outlet_id : Option ℕ

-- `getCurrentUser`
unfoldable pub get_current_user : ℕ → ℕ → Db → Result CurrentUser
get_current_user sub tenant db = do
  user ←
      or_raise
        (find
          (λ u.
            u.id == sub
            && u.tenant_id == tenant
            && u.is_active
            && any (λ t. t.id == tenant && t.is_active) db.tenants)
          db.users)
        (unauthorized current_user_unavailable)
  ok (record {
    id = user.id;
    name = user.name;
    role = user.role;
    tenant_id = user.tenant_id;
    outlet_id = user.outlet_id;
  })
