-- ===== src/HeldOrders/Service.antt =====
-- `create`, `update` and `cancel` of held-orders.service.ts as the controller calls them: the ids
-- and the request are checked before a transaction is opened.
use kasirk_backend.Base.{ℕ, Option, if◌then◌else◌}
use kasirk_backend.Base.Text.{IdText, uuid, malformed, lower_case}
use kasirk_backend.Common.Errors.{
  Result, ok, err, Failure, http, bad_request, unauthorized, invalid_id, invalid_user_context,
  invalid_held_order_input,
}
use kasirk_backend.Common.Roles.{Role}
use kasirk_backend.Database.Rows.{Db}
use kasirk_backend.Database.Client.{Tx}
use kasirk_backend.Database.Retry.{run_transaction}
use kasirk_backend.HeldOrders.Dto.{
  CreateHeldOrderDto, UpdateHeldOrderDto, valid_create, valid_update,
}
use kasirk_backend.HeldOrders.Access.{HeldActor}
use kasirk_backend.HeldOrders.Read.{HeldDetail}
use kasirk_backend.HeldOrders.Write.{create_order, update_order, cancel_order}

-- The signed-in user, as the access token names it.
pub record HeldUser : Type 0 where
  pub sub : IdText
  pub tenant_id : IdText
  pub role : Role

-- `actorContext`
unfoldable pub held_actor : HeldUser → Result HeldActor
held_actor user = elim user.sub [
  | malformed _ ↦ err (http (unauthorized invalid_user_context))
  | uuid s ↦ elim user.tenant_id [
    | malformed _ ↦ err (http (unauthorized invalid_user_context))
    | uuid t ↦ ok (record { tenant_id = lower_case t; sub = lower_case s; role = user.role })
  ]
]

-- Runs a transaction for the actor, unless there is none.
as_actor :
    {A : Type 0} → Option Failure → Result HeldActor → (HeldActor → Tx A) → Db → Result A × Db
as_actor fault (err e) tx db = (err e, db)
as_actor fault (ok actor) tx db = run_transaction fault (tx actor) db

unfoldable pub create_held :
    Option Failure → HeldUser → CreateHeldOrderDto → Db → Result HeldDetail × Db
unfolding held_actor as_actor
create_held fault user dto =
    as_actor fault
      (elim (held_actor user) [
        | err e ↦ err e
        | ok actor ↦
            if valid_create dto then ok actor else err (http (bad_request invalid_held_order_input))
      ])
      (λ actor. create_order actor dto)

-- The id of the path, after the user's context.
with_id : Result HeldActor → IdText → Result (HeldActor × ℕ)
with_id (err e) id = err e
with_id (ok actor) (malformed _) = err (http (bad_request invalid_id))
with_id (ok actor) (uuid u) = ok (actor, lower_case u)

on_order :
    {A : Type 0}
    → Option Failure
    → Result (HeldActor × ℕ)
    → (HeldActor → ℕ → Tx A)
    → Db
    → Result A × Db
on_order fault (err e) tx db = (err e, db)
on_order fault (ok (actor, id)) tx db = run_transaction fault (tx actor id) db

valid_or_raise : UpdateHeldOrderDto → Result (HeldActor × ℕ) → Result (HeldActor × ℕ)
valid_or_raise dto (err e) = err e
valid_or_raise dto (ok p) =
    if valid_update dto then ok p else err (http (bad_request invalid_held_order_input))

unfoldable pub update_held :
    Option Failure → HeldUser → IdText → UpdateHeldOrderDto → Db → Result HeldDetail × Db
unfolding held_actor with_id on_order valid_or_raise
update_held fault user id dto =
    on_order fault (valid_or_raise dto (with_id (held_actor user) id))
      (λ actor n. update_order actor n dto)

-- `cancel` does not validate its request again; the controller's pipe has.
unfoldable pub cancel_held : Option Failure → HeldUser → IdText → ℕ → Db → Result HeldDetail × Db
unfolding held_actor with_id on_order
cancel_held fault user id version =
    on_order fault (with_id (held_actor user) id) (λ actor n. cancel_order actor n version)
