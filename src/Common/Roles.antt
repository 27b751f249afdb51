-- ===== src/Common/Roles.antt =====
-- common/guards/roles.guard.ts and the roles of users.
use kasirk_backend.Base.{
  ℕ, Bool, true, false, ◌||◌, List, [], ◌∷◌, Option, none, some, if◌then◌else◌, ◌==◌,
}
use kasirk_backend.Common.Errors.{Result, ok, err, http, forbidden, role_not_allowed}

-- `users.role` is text; `unknown_role` stands for any other text.
pub data Role : Type 0 where
  owner admin cashier : Role
  unknown_role : ℕ → Role

abbrev pub is_cashier : Role → Bool
is_cashier cashier = true
is_cashier _ = false

-- `['OWNER', 'ADMIN', 'CASHIER'].includes(role)`
abbrev pub is_known : Role → Bool
is_known (unknown_role _) = false
is_known _ = true

-- `['OWNER', 'ADMIN'].includes(role)`
abbrev pub is_manager : Role → Bool
is_manager owner = true
is_manager admin = true
is_manager _ = false

abbrev pub role_eq : Role → Role → Bool
role_eq owner owner = true
role_eq admin admin = true
role_eq cashier cashier = true
role_eq (unknown_role a) (unknown_role b) = a == b
role_eq _ _ = false

includes_role : Role → List Role → Bool
includes_role r [] = false
includes_role r (x ∷ xs) = role_eq r x || includes_role r xs

-- `RolesGuard.canActivate`: the roles that the handler or its class requires, if any, and the role
-- of the request's user, if there is one.
pub can_activate : Option (List Role) → Option Role → Result Bool
can_activate none user = ok true
can_activate (some []) user = ok true
can_activate (some (r ∷ rs)) none = err (http (forbidden role_not_allowed))
can_activate (some (r ∷ rs)) (some role) =
    if includes_role role (r ∷ rs) then ok true else err (http (forbidden role_not_allowed))
