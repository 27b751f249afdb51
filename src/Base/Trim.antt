-- ===== src/Base/Trim.antt =====
-- `trim` a second time.
use mathlib.Core.List.{reverse, reverse-append, reverse-reverse}
use kasirk_backend.Base.{
  ◌≡◌, refl, sym, ap, subst, ◌∙◌, Bool, true, false, [], ◌∷◌, ◌++◌, arith, if◌then◌else◌,
}
use kasirk_backend.Base.Text.{Text, trim, trim_start, is_space}

-- A text without leading white space.
abbrev Starts : Text → Type 0
Starts [] = Unit
Starts (c ∷ s) = is_space c ≡ false

trim_start-Starts : (s : Text) → Starts (trim_start s)
unfolding trim_start
trim_start-Starts [] = tt
trim_start-Starts (c ∷ s) = at (is_space c) refl (trim_start-Starts s)
  where
    at :
        (t : Bool)
        → is_space c ≡ t
        → Starts (trim_start s)
        → Starts (if t then trim_start s else c ∷ s)
    at true e h = h
    at false e h = e

Starts-trim_start : (s : Text) → Starts s → trim_start s ≡ s
unfolding trim_start
Starts-trim_start [] h = refl
Starts-trim_start (c ∷ s) h = rw h

-- What `trim_start` cuts off.
cut : Text → Text
cut [] = []
cut (c ∷ s) = if is_space c then c ∷ cut s else []

cut-trim_start : (s : Text) → cut s ++ trim_start s ≡ s
unfolding cut trim_start
cut-trim_start [] = refl
cut-trim_start (c ∷ s) = ground (arith, cut-trim_start s)

Starts-front : (s t : Text) → Starts (s ++ t) → Starts s
Starts-front [] t h = tt
Starts-front (c ∷ s) t h = h

-- Trimming the end keeps the start trimmed.
Starts-end : (s : Text) → Starts s → Starts (reverse (trim_start (reverse s)))
Starts-end s h = Starts-front (reverse (trim_start (reverse s))) (reverse (cut (reverse s))) (
    subst Starts
      (sym (
        sym (reverse-append (cut (reverse s)) (trim_start (reverse s)))
        ∙ ap reverse (cut-trim_start (reverse s))
        ∙ reverse-reverse s))
      h)

-- Trimming a trimmed text.
pub trim-trim : (s : Text) → trim (trim s) ≡ trim s
unfolding trim
trim-trim s =
    let b = trim_start (reverse (trim_start s)) in
    let same = Starts-trim_start (reverse b) (Starts-end (trim_start s) (trim_start-Starts s)) in
    ap (λ x. reverse (trim_start (reverse x))) same
    ∙ ap (λ x. reverse (trim_start x)) (reverse-reverse b)
    ∙ ap reverse (Starts-trim_start b (trim_start-Starts (reverse (trim_start s))))
