-- ===== src/HeldOrders/Dto.antt =====
-- The requests of held orders (src/held-orders/dto) and their normalization.
use kasirk_backend.Base.{ℕ, Bool, true, ◌&&◌, List, [], ◌∷◌, Option, none, some, leb, length, all}
use kasirk_backend.Base.Text.{Text, trim, Uuid}
use kasirk_backend.Transactions.Dto.{
  ItemDto, PaymentDto, non_empty, valid_item, valid_payment, max_int,
}

pub record CreateHeldOrderDto : Type 0 where
  pub outlet_id : Uuid
  pub cashier_session_id : Uuid
  pub label : Option Text
  pub items : List ItemDto

unfoldable pub valid_label : Option Text → Bool
valid_label none = true
valid_label (some s) = leb (length s) 100

unfoldable pub valid_create : CreateHeldOrderDto → Bool
unfolding valid_label
valid_create d = valid_label d.label && non_empty d.items && all valid_item d.items

-- A property that is absent, null, or given.
pub data Patch (A : Type 0) : Type 0 where
  absent null : Patch A
  given : A → Patch A

pub record UpdateHeldOrderDto : Type 0 where
  pub expected_version : ℕ
  pub label : Patch Text
  pub items : Option (List ItemDto)

valid_patch : Patch Text → Bool
unfolding valid_label
valid_patch (given s) = valid_label (some s)
valid_patch _ = true

valid_items : Option (List ItemDto) → Bool
valid_items none = true
valid_items (some items) = non_empty items && all valid_item items

valid_version : ℕ → Bool
valid_version v = leb 1 v && leb v max_int

unfoldable pub valid_update : UpdateHeldOrderDto → Bool
unfolding valid_patch valid_items valid_version
valid_update d = valid_version d.expected_version && valid_patch d.label && valid_items d.items

pub record CheckoutHeldOrderDto : Type 0 where
  pub expected_version : ℕ
  pub client_transaction_id : Uuid
  pub payment : PaymentDto

unfoldable pub valid_held_checkout : CheckoutHeldOrderDto → Bool
unfolding valid_version
valid_held_checkout d = valid_version d.expected_version && valid_payment d.payment

-- `label`: trimmed, and null where nothing is left.
abbrev pub or_null : Text → Option Text
or_null [] = none
or_null (c ∷ s) = some (c ∷ s)

unfoldable pub label : Option Text → Option Text
label none = none
label (some s) = or_null (trim s)
