-- ===== src/Auth/Reuse.antt =====
-- `refresh` with a token that an earlier `refresh` used.
use kasirk_backend.Base.{ℕ, List, [], ◌∷◌, Option, none, some, All}
use kasirk_backend.Base.Text.{Text}
use kasirk_backend.Common.Errors.{Failure, http, unauthorized, invalid_refresh_token}
use kasirk_backend.Database.Rows.{Db}
use kasirk_backend.Database.Retry.{World}
use kasirk_backend.Database.Keeps.{OthersKeep}
use kasirk_backend.Auth.Config.{AuthConfig}
use kasirk_backend.Auth.Tokens.{Crypto}
use kasirk_backend.Auth.Pin.{PinLoginDto, pin_login}
use kasirk_backend.Auth.Refresh.{refresh, logout}
use kasirk_backend.Auth.Spent.{IsSpent}

-- The operations on sessions, with their inputs.
pub data SessionOp : Type 0 where
  pin_login_op : World → PinLoginDto → Text → SessionOp
  refresh_op : World → Text → Text → SessionOp
  logout_op : World → Text → SessionOp

abbrev op_world : SessionOp → World
op_world (pin_login_op w dto token) = w
op_world (refresh_op w t next) = w
op_world (logout_op w t) = w

-- What a refused refresh raises: the database's error, or that the token is invalid.
abbrev pub refusal : Option Failure → Failure
refusal none = http (unauthorized invalid_refresh_token)
refusal (some e) = e

module _ (c : Crypto) (cfg : AuthConfig) where
  abbrev run_op : SessionOp → Db → Db
  run_op (pin_login_op w dto token) db = (pin_login c cfg w dto token db).1
  run_op (refresh_op w t next) db = (refresh c cfg w t next db).1
  run_op (logout_op w t) db = logout c w t db

  abbrev pub run_ops : List SessionOp → Db → Db
  run_ops [] db = db
  run_ops (o ∷ os) db = run_ops os (run_op o db)

  -- The other clients make no session of the hash ACTIVE again.
  abbrev pub AllKeep : ℕ → List SessionOp → Type 0
  AllKeep h = All (λ o. OthersKeep (IsSpent h) (op_world o))
