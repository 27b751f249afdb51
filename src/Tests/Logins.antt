-- ===== src/Tests/Logins.antt =====
-- A refresh token that is used, and wrong PINs, on the sample shop.
use kasirk_backend.Base.{ℕ, ◌≡◌, refl, List, [], ◌∷◌, none, arith}
use kasirk_backend.Base.Sort.{list_eq}
use kasirk_backend.Base.Text.{Text}
use kasirk_backend.Common.Errors.{err}
use kasirk_backend.Database.Rows.{Db, active}
use kasirk_backend.Auth.Config.{AuthConfig}
use kasirk_backend.Auth.Tokens.{Crypto, TokenResponse}
use kasirk_backend.Auth.Pin.{PinLoginDto, pin_login, pin_locked_error, holds_pin, pin_user}
use kasirk_backend.Auth.Refresh.{refresh}
use kasirk_backend.Auth.Reuse.{SessionOp, pin_login_op, logout_op}
use kasirk_backend.Auth.Failures.{quiet, at, with_text, IsTrying}
use kasirk_backend.Auth.Lockout.{tries, wrong_pins-lock}
use kasirk_backend.Tests.Sample.{shop, cashier_row}

-- A PIN is its own hash, and a refresh token's hash is its first code point.
abbrev first_code : Text → ℕ
first_code [] = 0
first_code (c ∷ cs) = c

abbrev plain : Crypto
plain = record { compare = list_eq; hash = λ t. t; hash_refresh_token = first_code; sign = λ c. [] }

abbrev settings : AuthConfig
settings = record {
  pin_max_failed_attempts = 2;
  pin_lock_duration_ms = 60000;
  refresh_token_ttl_ms = 1000;
}

abbrev device_shop : Db
device_shop = record shop {
  device_sessions =
      record {
        id = 40;
        tenant_id = 1;
        user_id = 2;
        device_id = 41;
        device_name = none;
        refresh_token_hash = 5;
        status = active;
        created_at = 90;
        last_used_at = 90;
        expires_at = 500;
        rotated_at = none;
        revoked_at = none;
      }
      ∷ [];
}

abbrev token : Text
token = 5 ∷ []

abbrev next_token : Text
next_token = 6 ∷ []

abbrev refreshed_shop : Db
refreshed_shop = (refresh plain settings quiet token next_token device_shop).1

abbrev answer : TokenResponse
answer = record { access_token = []; refresh_token = next_token; expires_in = 86400 }

abbrev cashier_login : PinLoginDto
cashier_login = record {
  tenant_id = record { value = 1; casing = 0 };
  user_id = record { value = 2; casing = 0 };
  pin = 49 ∷ [];
  device_id = record { value = 41; casing = 0 };
  device_name = none;
}

abbrev later : List SessionOp
later = logout_op quiet next_token ∷ pin_login_op quiet cashier_login (7 ∷ []) ∷ []

shop-IsTrying : IsTrying cashier_login (49 ∷ []) 0 shop
unfolding holds_pin list_eq pin_user
shop-IsTrying = record {
  user = cashier_row;
  row = record { found = refl; hashed = refl; single = refl };
  tried = refl;
  unlocked = refl;
}

wrong_pins-lock_example :
    pin_login plain settings quiet (with_text cashier_login (49 ∷ [])) token (
      at 500 (
        tries plain settings cashier_login token 49 [] ((100, 50 ∷ []) ∷ (200, 51 ∷ []) ∷ []) shop))
    ≡ (
      err (pin_locked_error 60200 500),
      at 500 (
          tries plain settings cashier_login token 49 []
            ((100, 50 ∷ []) ∷ (200, 51 ∷ []) ∷ [])
            shop),
    )
unfolding list_eq
wrong_pins-lock_example =
    wrong_pins-lock plain settings cashier_login token 49 [] 100 (50 ∷ []) ((200, 51 ∷ []) ∷ [])
      shop shop-IsTrying (refl, (refl, tt)) refl 500 (49 ∷ []) (omega arith)
