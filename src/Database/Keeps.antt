-- ===== src/Database/Keeps.antt =====
-- Properties of the database that transactions, and loops of them, keep.
use kasirk_backend.Base.{
  ℕ, zero, suc, ◌≡◌, refl, subst, Bool, true, false, Option, none, some, if◌then◌else◌,
}
use kasirk_backend.Common.Errors.{Result, ok, err, Failure, HttpException, ok-pair}
use kasirk_backend.Database.Rows.{Db}
use kasirk_backend.Database.Client.{
  Tx, ◌>>=◌, pure, gets, modify, lift, raise_if, or_raise, reads, bind-ok,
}
use kasirk_backend.Database.Retry.{
  World, Handled, again, give_up, finish, run_transaction, settle, raise_or_retry, run_attempts,
}

-- An action that succeeds keeps the property.
abbrev pub Keeps : (Db → Type 0) → {A : Type 0} → Tx A → Type 0
Keeps P {A} m = (db : Db) (a : A) (db' : Db) → m db ≡ ok (a, db') → P db → P db'

-- What the other clients do keeps the property.
abbrev pub OthersKeep : (Db → Type 0) → World → Type 0
OthersKeep P w = (i : ℕ) (db : Db) → P db → P (w.others i db)

module _ (P : Db → Type 0) where
  pub Keeps-bind :
      {A B : Type 0} (m : Tx A) (f : A → Tx B)
      → Keeps P m
      → ((a : A) → Keeps P (f a))
      → Keeps P (m >>= f)
  Keeps-bind m f km kf db b db'' h p =
      let (a, db', h1, h2) = bind-ok m f db h in kf a db' b db'' h2 (km db a db' h1 p)

  pub Keeps-pure : {A : Type 0} (x : A) → Keeps P (pure x)
  Keeps-pure x db a db' h p = subst P (ok-pair h).1 p

  pub Keeps-gets : {A : Type 0} (f : Db → A) → Keeps P (gets f)
  Keeps-gets f db a db' h p = subst P (ok-pair h).1 p

  pub Keeps-modify : (f : Db → Db) → ((db : Db) → P db → P (f db)) → Keeps P (modify f)
  Keeps-modify f k db a db' h p = subst P (ok-pair h).1 (k db p)

  pub Keeps-lift : {A : Type 0} (r : Result A) → Keeps P (lift r)
  Keeps-lift (ok x) db a db' h p = subst P (ok-pair h).1 p
  Keeps-lift (err e) db a db' h p = cc

  pub Keeps-reads : {A : Type 0} (f : Db → Result A) → Keeps P (reads f)
  Keeps-reads f db a db' h p = Keeps-lift (f db) db a db' h p

  pub Keeps-raise_if : (t : Bool) (e : HttpException) → Keeps P (raise_if t e)
  Keeps-raise_if true e db a db' h p = cc
  Keeps-raise_if false e db a db' h p = subst P (ok-pair h).1 p

  pub Keeps-or_raise : {A : Type 0} (o : Option A) (e : HttpException) → Keeps P (or_raise o e)
  Keeps-or_raise none e db a db' h p = cc
  Keeps-or_raise (some x) e db a db' h p = subst P (ok-pair h).1 p

  pub Keeps-if :
      {A : Type 0} (t : Bool) (m n : Tx A) → Keeps P m → Keeps P n → Keeps P (if t then m else n)
  Keeps-if true m n km kn = km
  Keeps-if false m n km kn = kn

  Keeps-finish_at :
      {A : Type 0} (r : Result (A × Db)) (db : Db)
      → ((a : A) (db' : Db) → r ≡ ok (a, db') → P db')
      → P db
      → P (finish r db).1
  Keeps-finish_at (ok (a, db')) db k p = k a db' refl
  Keeps-finish_at (err e) db k p = p

  pub Keeps-finish : {A : Type 0} (m : Tx A) (db : Db) → Keeps P m → P db → P (finish (m db) db).1
  Keeps-finish m db k p = Keeps-finish_at (m db) db (λ a db' h. k db a db' h p) p

  pub Keeps-run_transaction :
      {A : Type 0} (f : Option Failure) (m : Tx A) (db : Db)
      → Keeps P m
      → P db
      → P (run_transaction f m db).1
  unfolding run_transaction
  Keeps-run_transaction (some e) m db k p = p
  Keeps-run_transaction none m db k p = Keeps-finish m db k p

  Keeps-settle :
      {A : Type 0} (handle : Failure → Handled) (next : Option (Db → Result A × Db))
      (r : Result A × Db)
      → ((f : Db → Result A × Db) → next ≡ some f → (db : Db) → P db → P (f db).1)
      → P r.1
      → P (settle handle next r).1
  Keeps-settle handle next (ok a, db) k p = p
  Keeps-settle {A} handle next (err e, db) k p = go (handle e) next k
    where
      go :
          (hd : Handled) (n : Option (Db → Result A × Db))
          → ((f : Db → Result A × Db) → n ≡ some f → (d : Db) → P d → P (f d).1)
          → P (raise_or_retry hd n db).1
      go (give_up x) n k' = p
      go (again x) none k' = p
      go (again x) (some f) k' = k' f refl db p

  -- A retry loop keeps what its transaction and the other clients keep.
  pub Keeps-run_attempts :
      {A : Type 0} (handle : Failure → Handled) (exhausted : Failure) (w : World) (left i : ℕ)
      (m : Tx A) (db : Db)
      → OthersKeep P w
      → Keeps P m
      → P db
      → P (run_attempts handle exhausted w left i m db).1
  unfolding run_attempts
  Keeps-run_attempts handle exhausted w zero i m db o k p = p
  Keeps-run_attempts handle exhausted w (suc zero) i m db o k p =
      Keeps-settle handle none _ (λ f e. cc)
        (Keeps-run_transaction (w.faults i) m (w.others i db) k (o i db p))
  Keeps-run_attempts handle exhausted w (suc (suc left)) i m db o k p =
      Keeps-settle handle (some (run_attempts handle exhausted w (suc left) (suc i) m)) _
        (λ f e d q.
          subst (λ (g : Db → Result _ × Db). P (g d).1) (some_inj e)
            (Keeps-run_attempts handle exhausted w (suc left) (suc i) m d o k q))
        (Keeps-run_transaction (w.faults i) m (w.others i db) k (o i db p))
    where
      some_inj : {X : Type 0} {x y : X} → ◌≡◌ {A = Option X} (some x) (some y) → x ≡ y
      some_inj h = cc
