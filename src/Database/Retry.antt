-- ===== src/Database/Retry.antt =====
-- `prisma.$transaction` and the bounded retry loops around it. The database is outside the
-- program: for each attempt, what the other clients did before it (`others`), and whether the
-- database fails the attempt (`faults`), are arguments.
pub mod Attempts
use kasirk_backend.Base.{
  ℕ, zero, suc, ◌≡◌, refl, Bool, true, false, Option, none, some, arith, if◌then◌else◌, ◌==◌,
}
use kasirk_backend.Common.Errors.{Result, ok, err, Failure}
use kasirk_backend.Database.Rows.{Db}
use kasirk_backend.Database.Client.{Tx}

-- The commit of a transaction that returns, and the rollback of one that raises.
abbrev pub finish : {A : Type 0} → Result (A × Db) → Db → Result A × Db
finish (ok (a, db')) db = (ok a, db')
finish (err e) db = (err e, db)

-- One transaction: what raises, and what the database fails, is rolled back.
unfoldable pub run_transaction : {A : Type 0} → Option Failure → Tx A → Db → Result A × Db
run_transaction (some e) tx db = (err e, db)
run_transaction none tx db = finish (tx db) db

-- What a `catch` clause does with an error: try again, raising the given error after the last
-- attempt, or raise at once.
pub data Handled : Type 0 where
  again give_up : Failure → Handled

pub record World : Type 0 where
  pub others : ℕ → Db → Db
  pub faults : ℕ → Option Failure

-- The end of an attempt: return, raise, or go on with the next one, if there is one.
abbrev pub raise_or_retry :
    {A : Type 0} → Handled → Option (Db → Result A × Db) → Db → Result A × Db
raise_or_retry (give_up e) next db = (err e, db)
raise_or_retry (again last) none db = (err last, db)
raise_or_retry (again last) (some next) db = next db

abbrev pub settle :
    {A : Type 0} → (Failure → Handled) → Option (Db → Result A × Db) → Result A × Db → Result A × Db
settle handle next (ok a, db) = (ok a, db)
settle handle next (err e, db) = raise_or_retry (handle e) next db

-- The loop, with `left` attempts from attempt `i` on; `exhausted` stands behind the loop.
unfoldable pub run_attempts :
    {A : Type 0} → (Failure → Handled) → Failure → World → (left i : ℕ) → Tx A → Db → Result A × Db
unfolding run_transaction
run_attempts handle exhausted w zero i tx db = (err exhausted, db)
run_attempts handle exhausted w (suc zero) i tx db =
    settle handle none (run_transaction (w.faults i) tx (w.others i db))
run_attempts handle exhausted w (suc (suc left)) i tx db =
    settle handle (some (run_attempts handle exhausted w (suc left) (suc i) tx))
      (run_transaction (w.faults i) tx (w.others i db))
