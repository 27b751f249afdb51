-- ===== src/Database/Retry/Attempts.antt =====
-- The attempts of a bounded retry loop and the database between them.
use kasirk_backend.Base.{
  ℕ, zero, suc, ◌+◌, ◌≤◌, ◌≡◌, refl, sym, ap, ap₂, subst, subst₂, ◌∙◌, Option, none, some, arith,
  ◌⊎◌, inl, inr,
}
use kasirk_backend.Common.Errors.{Result, ok, err, Failure, ok-inj}
use kasirk_backend.Database.Rows.{Db}
use kasirk_backend.Database.Client.{Tx}
use kasirk_backend.Database.Retry.{
  run_transaction, Handled, again, give_up, World, finish, settle, raise_or_retry, run_attempts,
}

-- The database before attempt `i + k`, when the attempts from `i` on before it were rolled back.
abbrev pub others_until : World → ℕ → ℕ → Db → Db
others_until w i zero db = w.others i db
others_until w i (suc k) db = others_until w (suc i) k (w.others i db)

finish-ok :
    {A : Type 0} (q : Result (A × Db)) (db : Db) (a : A) (db' : Db)
    → finish q db ≡ (ok a, db')
    → q ≡ ok (a, db')
finish-ok {A} (ok (x, d)) db a db' h =
    ap₂ (λ (y : A) (e : Db). ok (y, e)) (ok-inj (ap (λ r. r.0) h)) (ap (λ r. r.1) h)
finish-ok (err e) db a db' h = cc

pub run_transaction-ok :
    {A : Type 0} (f : Option Failure) (tx : Tx A) (db : Db) (a : A) (db' : Db)
    → run_transaction f tx db ≡ (ok a, db')
    → (f ≡ none) × (tx db ≡ ok (a, db'))
unfolding run_transaction
run_transaction-ok (some e) tx db a db' h = cc
run_transaction-ok none tx db a db' h = (refl, finish-ok (tx db) db a db' h)

finish-err :
    {A : Type 0} (q : Result (A × Db)) (db : Db) (e : Failure) (db' : Db)
    → finish q db ≡ (err e, db')
    → db' ≡ db
finish-err (ok (x, d)) db e db' h = cc
finish-err (err e') db e db' h = sym (ap (λ r. r.1) h)

run_transaction-err :
    {A : Type 0} (f : Option Failure) (tx : Tx A) (db : Db) (e : Failure) (db' : Db)
    → run_transaction f tx db ≡ (err e, db')
    → db' ≡ db
unfolding run_transaction
run_transaction-err (some e') tx db e db' h = sym (ap (λ r. r.1) h)
run_transaction-err none tx db e db' h = finish-err (tx db) db e db' h

-- What the last attempt made of the database it found: it was committed, or rolled back.
abbrev pub IsOutcome : {A : Type 0} → World → ℕ → Tx A → Db → Result A → Db → Type 0
IsOutcome w j tx before (ok a) after = (w.faults j ≡ none) × (tx before ≡ ok (a, after))
IsOutcome w j tx before (err e) after = after ≡ before

run_transaction-IsOutcome :
    {A : Type 0} (w : World) (j : ℕ) (tx : Tx A) (db : Db) (r : Result A) (db' : Db)
    → run_transaction (w.faults j) tx db ≡ (r, db')
    → IsOutcome w j tx db r db'
run_transaction-IsOutcome w j tx db (ok a) db' h = run_transaction-ok (w.faults j) tx db a db' h
run_transaction-IsOutcome w j tx db (err e) db' h = run_transaction-err (w.faults j) tx db e db' h

-- An attempt without a next one: its result is its transaction's, or another error in its place.
settle-none-IsOutcome :
    {A : Type 0} (handle : Failure → Handled) (w : World) (j : ℕ) (tx : Tx A) (db : Db)
    (r r' : Result A) (d db' : Db)
    → IsOutcome w j tx db r d
    → settle handle none (r, d) ≡ (r', db')
    → IsOutcome w j tx db r' db'
settle-none-IsOutcome handle w j tx db (ok a) r' d db' o h =
    subst₂ (IsOutcome w j tx db) (ap (λ q. q.0) h) (ap (λ q. q.1) h) o
settle-none-IsOutcome {A} handle w j tx db (err e) r' d db' o h = go (handle e) h
  where
    go : (hd : Handled) → raise_or_retry hd none d ≡ (r', db') → IsOutcome w j tx db r' db'
    go (give_up e') k = subst₂ (IsOutcome w j tx db) (ap (λ q. q.0) k) (ap (λ q. q.1) k) o
    go (again e') k = subst₂ (IsOutcome w j tx db) (ap (λ q. q.0) k) (ap (λ q. q.1) k) o

-- An attempt with a next one: it ends the loop, or it was rolled back and the next one runs.
settle-some-cases :
    {A : Type 0} (handle : Failure → Handled) (next : Db → Result A × Db) (w : World) (j : ℕ)
    (tx : Tx A) (db : Db) (r r' : Result A) (d db' : Db)
    → IsOutcome w j tx db r d
    → settle handle (some next) (r, d) ≡ (r', db')
    → IsOutcome w j tx db r' db' ⊎ (next db ≡ (r', db'))
settle-some-cases handle next w j tx db (ok a) r' d db' o h =
    inl (subst₂ (IsOutcome w j tx db) (ap (λ q. q.0) h) (ap (λ q. q.1) h) o)
settle-some-cases {A} handle next w j tx db (err e) r' d db' o h = go (handle e) h
  where
    go :
        (hd : Handled)
        → raise_or_retry hd (some next) d ≡ (r', db')
        → IsOutcome w j tx db r' db' ⊎ (next db ≡ (r', db'))
    go (give_up e') k = inl (subst₂ (IsOutcome w j tx db) (ap (λ q. q.0) k) (ap (λ q. q.1) k) o)
    go (again e') k = inr (sym (ap next o) ∙ k)

-- A retry loop with at least one attempt ends with one of its attempts: a result is that of an
-- attempt which the database did not fail, committed on the database as the other clients left it,
-- and after an error the database is as they left it.
pub run_attempts-IsOutcome :
    {A : Type 0} (handle : Failure → Handled) (exhausted : Failure) (w : World) (left i : ℕ)
    (tx : Tx A) (db : Db) (r : Result A) (db' : Db)
    → run_attempts handle exhausted w (suc left) i tx db ≡ (r, db')
    → (k : ℕ) × (k ≤ left) × IsOutcome w (i + k) tx (others_until w i k db) r db'
unfolding run_attempts
run_attempts-IsOutcome handle exhausted w zero i tx db r db' h =
    let (r0, d0) = run_transaction (w.faults i) tx (w.others i db) in
    let o = run_transaction-IsOutcome w i tx (w.others i db) r0 d0 refl in
    (
      zero,
      omega arith,
      subst (λ j. IsOutcome w j tx (w.others i db) r db') (omega arith)
          (settle-none-IsOutcome handle w i tx (w.others i db) r0 r d0 db' o h),
    )
run_attempts-IsOutcome handle exhausted w (suc left) i tx db r db' h =
    let next = run_attempts handle exhausted w (suc left) (suc i) tx in
    let (r0, d0) = run_transaction (w.faults i) tx (w.others i db) in
    let o = run_transaction-IsOutcome w i tx (w.others i db) r0 d0 refl in
    elim (settle-some-cases handle next w i tx (w.others i db) r0 r d0 db' o h) [
      | inl done ↦ (
        zero,
        omega arith,
        subst (λ j. IsOutcome w j tx (w.others i db) r db') (omega arith) done,
      )
      | inr going ↦
          let (k, few, rest) =
            run_attempts-IsOutcome handle exhausted w left (suc i) tx (w.others i db) r db' going in
          (
            suc k,
            omega arith,
            subst (λ j. IsOutcome w j tx (others_until w i (suc k) db) r db') (omega arith) rest,
          )
    ]
