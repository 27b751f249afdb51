-- ===== src/Base/Updates.antt =====
-- Searches and counts in a table whose rows were updated, or that a row was added to.
use kasirk_backend.Base.{
  ◌≤◌, ◌≡◌, refl, Bool, true, List, [], ◌∷◌, ◌++◌, some, arith, if◌then◌else◌, find, update,
  count_where, inl, inr, Bool-cases,
}

pub find-append_some :
    {A : Type 0} (p : A → Bool) (xs ys : List A) (x : A)
    → find p xs ≡ some x
    → find p (xs ++ ys) ≡ some x
find-append_some p [] ys x h = cc
find-append_some p (y ∷ xs) ys x h = ground (arith, find-append_some p xs ys x)

find-count :
    {A : Type 0} (p q : A → Bool) (xs : List A) (u : A)
    → find q xs ≡ some u
    → p u ≡ true
    → 1 ≤ count_where p xs
find-count p q [] u h t = cc
find-count p q (x ∷ xs) u h t = elim (Bool-cases (q x)) [
  | inl e ↦ ground (arith, e)
  | inr e ↦ ground (arith, find-count p q xs u)
]

-- The only element that fits is the one that another search found.
pub find-only :
    {A : Type 0} (p q : A → Bool) (xs : List A) (u : A)
    → count_where p xs ≡ 1
    → find q xs ≡ some u
    → p u ≡ true
    → find p xs ≡ some u
find-only p q [] u one h t = cc
find-only p q (x ∷ xs) u one h t = ground (arith, find-only p q xs u, find-count p q xs u)

pub find-update :
    {A : Type 0} (p q : A → Bool) (f : A → A)
    → ((x : A) → p (f x) ≡ p x)
    → (xs : List A) (x : A) → find p xs ≡ some x
    → find p (update q f xs) ≡ some (if q x then f x else x)
find-update p q f same [] x h = cc
find-update p q f same (y ∷ xs) x h = ground (arith, same y, find-update p q f same xs x)

pub count_where-update :
    {A : Type 0} (p q : A → Bool) (f : A → A)
    → ((x : A) → p (f x) ≡ p x)
    → (xs : List A) → count_where p (update q f xs) ≡ count_where p xs
count_where-update p q f same [] = refl
count_where-update p q f same (x ∷ xs) = ground (arith, same x, count_where-update p q f same xs)
