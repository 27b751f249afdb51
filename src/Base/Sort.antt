-- ===== src/Base/Sort.antt =====
-- `Array.prototype.sort` over a Boolean order, and the lexicographic order on lists of numbers.
use kasirk_backend.Base.{
  ℕ, suc, ◌+◌, ◌≡◌, refl, ap, ◌∙◌, Bool, true, false, List, [], ◌∷◌, arith, length, sum_by, All,
  if◌then◌else◌, ◌==◌, ltb,
}

-- A stable insertion sort: on keys whose order is total and antisymmetric every sort agrees.
module _ {ℓ} {A : Type ℓ} (le : A → A → Bool) where
  unfoldable pub insert_sorted : A → List A → List A
  insert_sorted a [] = a ∷ []
  insert_sorted a (x ∷ xs) = if le a x then a ∷ x ∷ xs else x ∷ insert_sorted a xs

  unfoldable pub sort : List A → List A
  unfolding insert_sorted
  sort [] = []
  sort (x ∷ xs) = insert_sorted x (sort xs)

module _ {A : Type 0} (le : A → A → Bool) where
  sum_by-insert_sorted :
      (f : A → ℕ) (a : A) (xs : List A) → sum_by f (insert_sorted le a xs) ≡ f a + sum_by f xs
  unfolding insert_sorted
  sum_by-insert_sorted f a [] = refl
  sum_by-insert_sorted f a (x ∷ xs) = ground (arith, sum_by-insert_sorted f a xs)

  pub sum_by-sort : (f : A → ℕ) (xs : List A) → sum_by f (sort le xs) ≡ sum_by f xs
  unfolding sort
  sum_by-sort f [] = refl
  sum_by-sort f (x ∷ xs) =
      sum_by-insert_sorted f x (sort le xs) ∙ ap (λ (n : ℕ). f x + n) (sum_by-sort f xs)

  length-insert_sorted : (a : A) (xs : List A) → length (insert_sorted le a xs) ≡ suc (length xs)
  unfolding insert_sorted
  length-insert_sorted a [] = refl
  length-insert_sorted a (x ∷ xs) = ground (arith, length-insert_sorted a xs)

  pub length-sort : (xs : List A) → length (sort le xs) ≡ length xs
  unfolding sort
  length-sort [] = refl
  length-sort (x ∷ xs) = length-insert_sorted x (sort le xs) ∙ ap suc (length-sort xs)

  All-insert_sorted :
      (P : A → Type 0) (a : A) (xs : List A) → P a → All P xs → All P (insert_sorted le a xs)
  unfolding insert_sorted
  All-insert_sorted P a [] p ps = (p, tt)
  All-insert_sorted P a (x ∷ xs) p (q, qs) = at (le a x) (All-insert_sorted P a xs p qs)
    where
      at :
          (t : Bool)
          → All P (insert_sorted le a xs)
          → All P (if t then a ∷ x ∷ xs else x ∷ insert_sorted le a xs)
      at true rest = (p, (q, qs))
      at false rest = (q, rest)

  pub All-sort : (P : A → Type 0) (xs : List A) → All P xs → All P (sort le xs)
  unfolding sort
  All-sort P [] ps = tt
  All-sort P (x ∷ xs) (p, ps) = All-insert_sorted P x (sort le xs) p (All-sort P xs ps)

-- The lexicographic order and equality of key lists.
unfoldable pub list_le : List ℕ → List ℕ → Bool
list_le [] ys = true
list_le (x ∷ xs) [] = false
list_le (x ∷ xs) (y ∷ ys) = if ltb x y then true else if ltb y x then false else list_le xs ys

unfoldable pub list_eq : List ℕ → List ℕ → Bool
list_eq [] [] = true
list_eq (x ∷ xs) (y ∷ ys) = if x == y then list_eq xs ys else false
list_eq _ _ = false

unfoldable pub lists_eq : List (List ℕ) → List (List ℕ) → Bool
lists_eq [] [] = true
lists_eq (x ∷ xs) (y ∷ ys) = if list_eq x y then lists_eq xs ys else false
lists_eq _ _ = false

pub list_eq_refl : (xs : List ℕ) → list_eq xs xs ≡ true
unfolding list_eq
list_eq_refl [] = refl
list_eq_refl (x ∷ xs) = ground (arith, list_eq_refl xs)

pub lists_eq_refl : (xs : List (List ℕ)) → lists_eq xs xs ≡ true
unfolding lists_eq
lists_eq_refl [] = refl
lists_eq_refl (x ∷ xs) = ground (arith, list_eq_refl x, lists_eq_refl xs)
