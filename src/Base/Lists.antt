-- ===== src/Base/Lists.antt =====
-- Lists as the query results and tables of the program: searched, filtered and updated by a
-- Boolean test, summed and measured by native numbers.
use Prim.Native.Nat.{ℕ, suc, ◌+◌}
use mathlib.Core.Path.{◌≡◌, refl, ap}
use mathlib.Core.Bool.{Bool, true, false, ◌&&◌, ◌||◌}
use mathlib.Core.List.{List, [], ◌∷◌, ◌++◌}
use mathlib.Core.Option.{Option, none, some}
use native.Mathlib.Omega.{arith}
use kasirk_backend.Base.Tests.{◌==◌, if◌then◌else◌}

module _ {ℓ} {A : Type ℓ} where
  abbrev pub length : List A → ℕ
  length [] = 0
  length (x ∷ xs) = suc (length xs)

  -- `Array.find`, and Prisma's `findFirst`.
  abbrev pub find : (A → Bool) → List A → Option A
  find p [] = none
  find p (x ∷ xs) = if p x then some x else find p xs

  -- `Array.filter`, and Prisma's `findMany`.
  abbrev pub select : (A → Bool) → List A → List A
  select p [] = []
  select p (x ∷ xs) = if p x then x ∷ select p xs else select p xs

  -- Prisma's `updateMany`: every row that matches is changed in place.
  abbrev pub update : (A → Bool) → (A → A) → List A → List A
  update p f [] = []
  update p f (x ∷ xs) = (if p x then f x else x) ∷ update p f xs

  -- Prisma's `count`.
  abbrev pub count_where : (A → Bool) → List A → ℕ
  count_where p [] = 0
  count_where p (x ∷ xs) = (if p x then 1 else 0) + count_where p xs

  abbrev pub any : (A → Bool) → List A → Bool
  any p [] = false
  any p (x ∷ xs) = p x || any p xs

  abbrev pub all : (A → Bool) → List A → Bool
  all p [] = true
  all p (x ∷ xs) = p x && all p xs

  abbrev pub sum_by : (A → ℕ) → List A → ℕ
  sum_by f [] = 0
  sum_by f (x ∷ xs) = f x + sum_by f xs

  abbrev pub All {κ} : (A → Type κ) → List A → Type κ
  All P [] = Unit
  All P (x ∷ xs) = P x × All P xs

-- `Array.includes` over ids.
abbrev pub includes : ℕ → List ℕ → Bool
includes a [] = false
includes a (x ∷ xs) = a == x || includes a xs

-- `[...new Set(ids)]`: the first occurrences, in order.
unique_after : List ℕ → List ℕ → List ℕ
unique_after seen [] = []
unique_after seen (x ∷ xs) =
    if includes x seen then unique_after seen xs else x ∷ unique_after (x ∷ seen) xs

unfoldable pub unique : List ℕ → List ℕ
unfolding unique_after
unique = unique_after []

pub find-append {ℓ} :
    {A : Type ℓ} (p : A → Bool) (xs ys : List A) → find p xs ≡ none → find p (xs ++ ys) ≡ find p ys
find-append p [] ys h = refl
find-append p (x ∷ xs) ys h = ground (arith, find-append p xs ys)

pub find-true {ℓ} :
    {A : Type ℓ} (p : A → Bool) (xs : List A) (x : A) → find p xs ≡ some x → p x ≡ true
find-true p [] x h = ground arith
find-true p (y ∷ xs) x h = ground (arith, find-true p xs x)

pub select-append {ℓ} :
    {A : Type ℓ} (p : A → Bool) (xs ys : List A) → select p (xs ++ ys) ≡ select p xs ++ select p ys
select-append p [] ys = refl
select-append p (x ∷ xs) ys = ground (arith, select-append p xs ys)

pub sum_by-append {ℓ} :
    {A : Type ℓ} (f : A → ℕ) (xs ys : List A) → sum_by f (xs ++ ys) ≡ sum_by f xs + sum_by f ys
sum_by-append f [] ys = omega arith
sum_by-append f (x ∷ xs) ys = omega (arith, sum_by-append f xs ys)

pub length-append {ℓ} : {A : Type ℓ} (xs ys : List A) → length (xs ++ ys) ≡ length xs + length ys
length-append [] ys = omega arith
length-append (x ∷ xs) ys = omega (arith, length-append xs ys)

pub All-append {ℓ κ} :
    {T : Type ℓ} (Q : T → Type κ) (front back : List T)
    → All Q front
    → All Q back
    → All Q (front ++ back)
All-append Q (t ∷ front) back (q, qs) r = (q, All-append Q front back qs r)
All-append Q [] back q r = r

pub length-update {ℓ} :
    {A : Type ℓ} (p : A → Bool) (f : A → A) (xs : List A) → length (update p f xs) ≡ length xs
length-update p f [] = refl
length-update p f (x ∷ xs) = ap suc (length-update p f xs)

-- Updates and selections where a test holds nowhere, or everywhere.
module _ {ℓ} {A : Type ℓ} (p : A → Bool) where
  pub update_none : (f : A → A) (xs : List A) → All (λ x. p x ≡ false) xs → update p f xs ≡ xs
  update_none f [] h = refl
  update_none f (x ∷ xs) h = ground (arith, update_none f xs h.1)

  pub update-append :
      (f : A → A) (xs ys : List A) → update p f (xs ++ ys) ≡ update p f xs ++ update p f ys
  update-append f [] ys = refl
  update-append f (x ∷ xs) ys = ground (arith, update-append f xs ys)

  pub find-none : (xs : List A) → All (λ x. p x ≡ false) xs → find p xs ≡ none
  find-none [] h = refl
  find-none (x ∷ xs) h = ground (arith, find-none xs h.1)

  pub select_none : (xs : List A) → All (λ x. p x ≡ false) xs → select p xs ≡ []
  select_none [] h = refl
  select_none (x ∷ xs) h = ground (arith, select_none xs h.1)

  pub select_all : (xs : List A) → All (λ x. p x ≡ true) xs → select p xs ≡ xs
  select_all [] h = refl
  select_all (x ∷ xs) h = ground (arith, select_all xs h.1)

pub All_mono {ℓ κ} :
    {A : Type ℓ} (P Q : A → Type κ) → ((x : A) → P x → Q x) → (xs : List A) → All P xs → All Q xs
All_mono P Q f [] h = tt
All_mono P Q f (x ∷ xs) h = (f x h.0, All_mono P Q f xs h.1)

-- An update that fits only the last element, and a search that finds only it.
pub update_last {ℓ} :
    {A : Type ℓ} (p : A → Bool) (f : A → A) (xs : List A) (y : A)
    → All (λ x. p x ≡ false) xs
    → p y ≡ true
    → update p f (xs ++ y ∷ []) ≡ xs ++ f y ∷ []
update_last p f [] y h e = ground arith
update_last p f (x ∷ xs) y h e = ground (arith, update_last p f xs y h.1 e)

pub find_last {ℓ} :
    {A : Type ℓ} (p : A → Bool) (xs : List A) (y : A)
    → find p xs ≡ none
    → p y ≡ true
    → find p (xs ++ y ∷ []) ≡ some y
find_last p [] y h e = ground arith
find_last p (x ∷ xs) y h e = ground (arith, find_last p xs y)
