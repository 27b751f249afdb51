-- ===== src/Database/Client.antt =====
-- What a service does with a transaction client: it reads and writes the tables, and raises. A
-- service that raises inside `prisma.$transaction` leaves the database as it found it.
use kasirk_backend.Base.{◌≡◌, refl, Bool, true, false, Option, none, some, arith}
use kasirk_backend.Common.Errors.{Result, ok, err, Failure, http, HttpException}
use kasirk_backend.Database.Rows.{Db}

abbrev pub Tx : Type 0 → Type 0
Tx A = Db → Result (A × Db)

abbrev pub pure : {A : Type 0} → A → Tx A
pure a db = ok (a, db)

infixl 5 ◌>>=◌ ◌>>◌
abbrev pub ◌>>=◌ : {A B : Type 0} → Tx A → (A → Tx B) → Tx B
◌>>=◌ m f db = elim (m db) [ ok (a, db') ↦ f a db' | err e ↦ err e ]

abbrev pub ◌>>◌ : {A B : Type 0} → Tx A → Tx B → Tx B
m >> k = m >>= λ _. k

-- A read of the whole database.
abbrev pub gets : {A : Type 0} → (Db → A) → Tx A
gets f db = ok (f db, db)

abbrev pub modify : (Db → Db) → Tx (Unit {0})
modify f db = ok (tt, f db)

abbrev pub lift : {A : Type 0} → Result A → Tx A
lift (ok a) db = ok (a, db)
lift (err e) db = err e

abbrev pub raise_if : Bool → HttpException → Tx (Unit {0})
raise_if true e db = err (http e)
raise_if false e db = ok (tt, db)

abbrev pub or_raise : {A : Type 0} → Option A → HttpException → Tx A
or_raise none e db = err (http e)
or_raise (some a) e db = ok (a, db)

abbrev pub or_fail : {A : Type 0} → Option A → Failure → Tx A
or_fail none e db = err e
or_fail (some a) e db = ok (a, db)

-- A part of a transaction that only reads.
abbrev pub reads : {A : Type 0} → (Db → Result A) → Tx A
reads f db = lift (f db) db

-- Inversion of an action that succeeds.
pub bind-ok :
    {A B : Type 0} (m : Tx A) (f : A → Tx B) (db : Db) {b : B} {db'' : Db}
    → (m >>= f) db ≡ ok (b, db'')
    → (a : A) × (db' : Db) × (m db ≡ ok (a, db')) × (f a db' ≡ ok (b, db''))
bind-ok {A} {B} m f db {b} {db''} h = go (m db) refl h
  where
    go :
        (r : Result (A × Db))
        → m db ≡ r
        → (elim r [ ok (a, db') ↦ f a db' | err e ↦ err e ]) ≡ ok (b, db'')
        → (a : A) × (db' : Db) × (m db ≡ ok (a, db')) × (f a db' ≡ ok (b, db''))
    go (ok (a, db')) p q = (a, db', p, q)
    go (err e) p q = cc

-- A bind after an action whose result is known.
pub bind-eq :
    {A B : Type 0} (m : Tx A) (f : A → Tx B) (db : Db) {a : A} {db' : Db}
    → m db ≡ ok (a, db')
    → (m >>= f) db ≡ f a db'
bind-eq m f db e = rw (e, ◌>>=◌)

pub raise_if-ok :
    (t : Bool) (e : HttpException) (db : Db) {u : Unit {0}} {db' : Db}
    → raise_if t e db ≡ ok (u, db')
    → (t ≡ false) × (db' ≡ db)
raise_if-ok true e db h = cc
raise_if-ok false e db h = (refl, ground arith)

pub lift-ok :
    {A : Type 0} (r : Result A) (db : Db) {a : A} {db' : Db}
    → lift r db ≡ ok (a, db')
    → (r ≡ ok a) × (db' ≡ db)
lift-ok (err e) db h = cc
lift-ok (ok b) db h = (ground arith, ground arith)

pub reads-bind :
    {A B : Type 0} (r : Db → Result A) (f : A → Tx B) (db : Db) {b : B} {db' : Db}
    → (reads r >>= f) db ≡ ok (b, db')
    → (a : A) × (r db ≡ ok a) × (f a db ≡ ok (b, db'))
reads-bind {A} {B} r f db {b} {db'} h = go (r db) refl h
  where
    go :
        (a? : Result A)
        → r db ≡ a?
        → (lift a? >>= f) db ≡ ok (b, db')
        → (a : A) × (r db ≡ ok a) × (f a db ≡ ok (b, db'))
    go (ok a) p q = (a, p, q)
    go (err e) p q = cc
