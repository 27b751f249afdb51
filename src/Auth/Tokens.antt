-- ===== src/Auth/Tokens.antt =====
-- What auth.service.ts takes from bcrypt, SHA-256 and the JWT library, and `tokenResponse`.
use kasirk_backend.Base.{ℕ, ◌*◌, Bool, Option}
use kasirk_backend.Base.Text.{Text}
use kasirk_backend.Common.Roles.{Role}
use kasirk_backend.Database.Rows.{User}

-- The claims of an access token.
pub record Claims : Type 0 where
  pub sub : ℕ
  pub tenant_id : ℕ
  pub role : Role
  pub outlet_id : Option ℕ

-- `bcrypt.compare`, `bcrypt.hash`, the SHA-256 hash of a refresh token, and `jwtService.sign`.
pub record Crypto : Type 0 where
  pub compare : Text → Text → Bool
  pub hash : Text → Text
  pub hash_refresh_token : Text → ℕ
  pub sign : Claims → Text

unfoldable pub claims : User → Claims
claims user = record {
  sub = user.id;
  tenant_id = user.tenant_id;
  role = user.role;
  outlet_id = user.outlet_id;
}

pub record TokenResponse : Type 0 where
  pub access_token : Text
  pub refresh_token : Text
  pub expires_in : ℕ

-- `tokenResponse`
unfoldable pub token_response : Crypto → User → Text → TokenResponse
unfolding claims
token_response c user refresh_token = record {
  access_token = c.sign (claims user);
  refresh_token = refresh_token;
  expires_in = 24 * 60 * 60;
}
