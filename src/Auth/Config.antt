-- ===== src/Auth/Config.antt =====
-- The settings of auth.service.ts: `positiveIntegerConfig` and the constructor.
use kasirk_backend.Base.{ℕ, ◌*◌, ◌&&◌, Option, none, some, [], ◌∷◌, if◌then◌else◌, leb}
use kasirk_backend.Base.Int.{ℤ, pos, negsuc}
use kasirk_backend.Base.Text.{Text}
use kasirk_backend.Common.Errors.{Result, ok, err, other_error, ◌>>=◌}
use kasirk_backend.Transactions.Dto.{max_safe_integer}

-- What `Number` makes of a text: an integer, or any other number.
pub data JsNumber : Type 0 where
  integer : ℤ → JsNumber
  other_number : JsNumber

pub data ConfigValue : Type 0 where
  text : Text → ConfigValue
  number : JsNumber → ConfigValue

-- `configService.get`, and `Number` on texts.
pub record ConfigService : Type 0 where
  pub get : ℕ → Option ConfigValue
  pub to_number : Text → JsNumber

-- The error that the constructor throws, by the key that it names.
abbrev pub not_positive : ℕ → Result ℕ
not_positive key = err (other_error key)

-- `Number.isSafeInteger(value) && value > 0`
unfoldable pub check_positive : ℕ → JsNumber → Result ℕ
check_positive key other_number = not_positive key
check_positive key (integer (negsuc n)) = not_positive key
check_positive key (integer (pos n)) =
    if leb 1 n && leb n max_safe_integer then ok n else not_positive key

-- `positiveIntegerConfig`
unfoldable pub positive_integer_config : ConfigService → ℕ → ℕ → Result ℕ
unfolding check_positive
positive_integer_config s key fallback = elim (s.get key) [
  | none ↦ ok fallback
  | some v ↦ elim v [
    | number n ↦ check_positive key n
    | text t ↦ elim t [ [] ↦ ok fallback | c ∷ cs ↦ check_positive key (s.to_number (c ∷ cs)) ]
  ]
]

pub record AuthConfig : Type 0 where
  pub pin_max_failed_attempts : ℕ
  pub pin_lock_duration_ms : ℕ
  pub refresh_token_ttl_ms : ℕ

-- The keys of the settings.
abbrev pub pin_max_key : ℕ
pin_max_key = 0

abbrev pub pin_lock_key : ℕ
pin_lock_key = 1

abbrev pub ttl_key : ℕ
ttl_key = 2

-- The constructor of `AuthService`.
unfoldable pub auth_config : ConfigService → Result AuthConfig
unfolding positive_integer_config
auth_config s = do
  max ← positive_integer_config s pin_max_key 5
  minutes ← positive_integer_config s pin_lock_key 15
  days ← positive_integer_config s ttl_key 30
  ok (record {
    pin_max_failed_attempts = max;
    pin_lock_duration_ms = minutes * 60 * 1000;
    refresh_token_ttl_ms = days * 24 * 60 * 60 * 1000;
  })
