-- ===== src/Base/Text.antt =====
-- Texts as lists of code points, `String.prototype.trim`, and the ids that requests carry.
use mathlib.Core.List.{reverse}
use kasirk_backend.Base.{ℕ, ◌≡◌, refl, Bool, ◌||◌, ◌&&◌, List, [], ◌∷◌, leb, ◌==◌, if◌then◌else◌}

abbrev pub Text : Type 0
Text = List ℕ

-- White space and line terminators, as ECMAScript's `trim` removes them.
abbrev pub is_space : ℕ → Bool
is_space c =
    leb 9 c && leb c 13
    || c == 32
    || c == 160
    || c == 0x1680
    || leb 0x2000 c && leb c 0x200a
    || c == 0x2028
    || c == 0x2029
    || c == 0x202f
    || c == 0x205f
    || c == 0x3000
    || c == 0xfeff

unfoldable pub trim_start : Text → Text
trim_start [] = []
trim_start (c ∷ s) = if is_space c then trim_start s else c ∷ s

unfoldable pub trim : Text → Text
unfolding trim_start
trim s = reverse (trim_start (reverse (trim_start s)))

-- A UUID as a request spells it: `value` is the number that its digits write, which stands for
-- the text in lower case, and `casing` says which letters are upper case.
pub record Uuid : Type 0 where
  pub value : ℕ
  pub casing : ℕ

-- `id.toLowerCase()`: two UUID texts have one lower-case form exactly if they have one value.
abbrev pub lower_case : Uuid → ℕ
lower_case u = u.value

-- Any text in the place of an id, told apart by `isUUID`.
pub data IdText : Type 0 where
  uuid : Uuid → IdText
  malformed : Text → IdText

pub trim_shout : trim (32 ∷ 104 ∷ 32 ∷ 105 ∷ 10 ∷ []) ≡ 104 ∷ 32 ∷ 105 ∷ []
unfolding trim trim_start
trim_shout = refl
