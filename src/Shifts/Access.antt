-- ===== src/Shifts/Access.antt =====
-- `actorContext` of shifts.service.ts, and the range of its cash values.
use kasirk_backend.Base.{ℕ, ◌+◌, ◌&&◌, not, Option, none, some, if◌then◌else◌, ◌==◌, find, any, ltb}
use kasirk_backend.Base.Int.{ℤ, pos_part, neg_part}
use kasirk_backend.Base.Text.{IdText, uuid, malformed, lower_case}
use kasirk_backend.Common.Errors.{
  Result, ok, err, http, ◌>>=◌, ◌>>◌, raise_if, or_raise, unauthorized, forbidden, internal_error,
  invalid_user_context, user_or_tenant_inactive, role_not_allowed, shift_value_out_of_range,
}
use kasirk_backend.Common.Roles.{Role, is_known}
use kasirk_backend.Database.Rows.{Db}
use kasirk_backend.Transactions.Dto.{max_safe_integer}

pub record ShiftActor : Type 0 where
  pub tenant_id : ℕ
  pub user_id : ℕ
  pub role : Role
  pub outlet_id : Option ℕ

-- The ids of the access token, and then the active user of that name.
unfoldable pub actor_context : IdText → IdText → Db → Result ShiftActor
actor_context (malformed _) tenant db = err (http (unauthorized invalid_user_context))
actor_context (uuid _) (malformed _) db = err (http (unauthorized invalid_user_context))
actor_context (uuid sub) (uuid tenant) db = do
  user ←
      or_raise
        (find
          (λ u.
            u.id == lower_case sub
            && u.tenant_id == lower_case tenant
            && u.is_active
            && any (λ t. t.id == lower_case tenant && t.is_active) db.tenants)
          db.users)
        (unauthorized user_or_tenant_inactive)
  raise_if (not (is_known user.role)) (forbidden role_not_allowed)
  ok (record {
    tenant_id = lower_case tenant;
    user_id = lower_case sub;
    role = user.role;
    outlet_id = user.outlet_id;
  })

-- `assertSafeMoney` and `optionalMoney`: at most 2^53 - 1 in absolute value.
unfoldable pub safe_money : ℤ → Result ℤ
safe_money v =
    if ltb max_safe_integer (pos_part v + neg_part v)
    then err (http (internal_error shift_value_out_of_range))
    else ok v

unfoldable pub optional_money : Option ℤ → Result (Option ℤ)
unfolding safe_money
optional_money none = ok none
optional_money (some v) = elim (safe_money v) [ ok m ↦ ok (some m) | err e ↦ err e ]
