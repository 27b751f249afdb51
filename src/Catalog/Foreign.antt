-- ===== src/Catalog/Foreign.antt =====
-- Writes to a table, and its rows that a test of ownership rejects.
use kasirk_backend.Base.{
  ◌≤◌, ◌≡◌, refl, ap, ◌∙◌, Bool, true, false, not, List, [], ◌∷◌, ◌++◌, some, arith, find, select,
  update, count_where, All, select-append, inl, inr, Bool-cases,
}

module _ {A : Type 0} (own : A → Bool) where
  -- The rows of the others.
  abbrev pub foreign : List A → List A
  foreign = select (λ x. not (own x))

  pub foreign-own : (xs : List A) → All (λ x. own x ≡ true) xs → foreign xs ≡ []
  foreign-own [] h = refl
  foreign-own (x ∷ xs) (e, es) = ground (arith, foreign-own xs es)

  append-nil_of : (xs ys : List A) → ys ≡ [] → xs ++ ys ≡ xs
  append-nil_of [] ys e = e
  append-nil_of (x ∷ xs) ys e = ap (λ (zs : List A). x ∷ zs) (append-nil_of xs ys e)

  pub foreign-append :
      (xs ys : List A) → All (λ x. own x ≡ true) ys → foreign (xs ++ ys) ≡ foreign xs
  foreign-append xs ys h =
      select-append (λ x. not (own x)) xs ys
      ∙ append-nil_of (foreign xs) (foreign ys) (foreign-own ys h)

  -- An update of rows that are one's own, and stay so.
  pub foreign-update :
      (p : A → Bool) (f : A → A) (xs : List A)
      → All (λ x. p x ≡ true → (own x ≡ true) × (own (f x) ≡ true)) xs
      → foreign (update p f xs) ≡ foreign xs
  foreign-update p f [] h = refl
  foreign-update p f (x ∷ xs) (h, hs) = elim (Bool-cases (p x)) [
    | inl e ↦ rw (e, (h e).0, (h e).1) (foreign-update p f xs hs)
    | inr e ↦ ground (arith, e, foreign-update p f xs hs)
  ]

  -- A deletion of rows that are one's own.
  pub foreign-select :
      (keep : A → Bool) (xs : List A)
      → All (λ x. keep x ≡ false → own x ≡ true) xs
      → foreign (select keep xs) ≡ foreign xs
  foreign-select keep [] h = refl
  foreign-select keep (x ∷ xs) (h, hs) = elim (Bool-cases (keep x)) [
    | inl e ↦ ground (arith, e, foreign-select keep xs hs)
    | inr e ↦ rw (e, h e) (foreign-select keep xs hs)
  ]

  none_fits :
      (p : A → Bool) (xs : List A) → count_where p xs ≡ 0 → All (λ x. p x ≡ true → own x ≡ true) xs
  none_fits p [] h = tt
  none_fits p (x ∷ xs) h = (λ e. absurd (ground arith), none_fits p xs (ground arith))

  fits_later :
      (p r : A → Bool) (xs : List A) (c : A)
      → ((x : A) → r x ≡ true → (p x ≡ true) × (own x ≡ true))
      → find r xs ≡ some c
      → 1 ≤ count_where p xs
  fits_later p r [] c both h = cc
  fits_later p r (x ∷ xs) c both h = elim (Bool-cases (r x)) [
    | inl e ↦ rw (both x e).0 (omega arith)
    | inr e ↦ ground (arith, e, fits_later p r xs c both)
  ]

  -- Where at most one row has a key, and one's own row has it, no other row does.
  pub all_own :
      (p r : A → Bool) (xs : List A) (c : A)
      → ((x : A) → r x ≡ true → (p x ≡ true) × (own x ≡ true))
      → count_where p xs ≤ 1
      → find r xs ≡ some c
      → All (λ x. p x ≡ true → own x ≡ true) xs
  all_own p r [] c both few h = cc
  all_own p r (x ∷ xs) c both few h = elim (Bool-cases (r x)) [
    | inl e ↦ (λ _. (both x e).1, none_fits p xs (rest_empty (both x e).0))
    | inr e ↦ elim (Bool-cases (p x)) [
      | inr e' ↦ (λ e''. cc, all_own p r xs c both (ground arith) (rw e at h))
      | inl e' ↦ absurd (crowded e' (fits_later p r xs c both (rw e at h)))
    ]
  ]
    where
      rest_empty : p x ≡ true → count_where p xs ≡ 0
      rest_empty e = ground arith

      crowded : p x ≡ true → 1 ≤ count_where p xs → ⊥
      crowded e more = ground arith
