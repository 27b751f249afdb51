-- ===== src/Base/Pick.antt =====
-- `find` and `any` over the rows that a query selects, and conjunctions of tests.
use kasirk_backend.Base.{
  ◌≡◌, refl, Bool, true, false, ◌&&◌, List, [], ◌∷◌, some, arith, find, any, select, inl, inr,
  Bool-cases,
}

pub find-select :
    {A : Type 0} (p q r : A → Bool)
    → ((x : A) → (q x ≡ true) → r x ≡ true)
    → ((x : A) → p x ≡ true → r x ≡ true → q x ≡ true)
    → (xs : List A) (x : A) → find p (select q xs) ≡ some x
    → find (λ y. p y && r y) xs ≡ some x
find-select p q r to from [] x h = cc
find-select p q r to from (y ∷ xs) x h = elim (Bool-cases (q y)) [
  | inl e ↦ ground (arith, e, to y e, find-select p q r to from xs x)
  | inr e ↦ elim (Bool-cases (p y)) [
    | inr e' ↦ ground (arith, e, e', find-select p q r to from xs x)
    | inl e' ↦ elim (Bool-cases (r y)) [
      | inl e'' ↦ ground (arith, e, from y e' e'')
      | inr e'' ↦ ground (arith, e, e', e'', find-select p q r to from xs x)
    ]
  ]
]

pub any-select :
    {A : Type 0} (p q r : A → Bool) (xs : List A) (x : A)
    → find p (select q xs) ≡ some x
    → ((y : A) → q y ≡ true → y ≡ x → r y ≡ true)
    → any r xs ≡ true
any-select p q r [] x h k = cc
any-select p q r (y ∷ xs) x h k = elim (Bool-cases (q y)) [
  | inr e ↦ ground (arith, e, any-select p q r xs x)
  | inl e ↦ elim (Bool-cases (p y)) [
    | inl e' ↦ ground (arith, k y e (found e e'))
    | inr e' ↦ ground (arith, e, e', any-select p q r xs x)
  ]
]
  where
    found : q y ≡ true → p y ≡ true → y ≡ x
    found e e' = ground arith

pub find-select-true :
    {A : Type 0} (p q : A → Bool) (xs : List A) (x : A) → find p (select q xs) ≡ some x → q x ≡ true
find-select-true p q [] x h = cc
find-select-true p q (y ∷ xs) x h = elim (Bool-cases (q y)) [
  | inr e ↦ ground (arith, e, find-select-true p q xs x)
  | inl e ↦ elim (Bool-cases (p y)) [
    | inl e' ↦ ground (arith, e, e')
    | inr e' ↦ ground (arith, e, e', find-select-true p q xs x)
  ]
]

pub first : (a b : Bool) → (a && b) ≡ true → a ≡ true
first true b h = refl
first false b h = cc

pub last : (a b : Bool) → (a && b) ≡ true → b ≡ true
last true b h = h
last false b h = cc

pub all_hold :
    (a b c d e : Bool) → (b && c && d) ≡ true → a ≡ true → e ≡ true → (a && b && d && e) ≡ true
all_hold a b c d e h k l = ground arith
