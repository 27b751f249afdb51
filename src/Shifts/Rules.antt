-- ===== src/Shifts/Rules.antt =====
-- `open` of shifts.service.ts and the number of open sessions.
use kasirk_backend.Base.{
  ℕ, ◌+◌, ◌≤◌, ◌≡◌, refl, sym, ap, subst, ◌∙◌, Bool, true, false, ◌&&◌, not, List, [], ◌∷◌, ◌++◌,
  some, arith, ◌==◌, opt_eq, if◌then◌else◌, any, count_where, inl, inr, Bool-cases, and_parts,
  ==_eq, subst₂,
}
use kasirk_backend.Base.Text.{IdText}
use kasirk_backend.Common.Errors.{ok, ok-inj, >>=-eq-ok, raise_if-eq-ok}
use kasirk_backend.Common.Roles.{is_cashier}
use kasirk_backend.Database.Rows.{Db}
use kasirk_backend.Database.Client.{reads-bind, lift-ok}
use kasirk_backend.Shifts.Access.{ShiftActor, actor_context}
use kasirk_backend.Shifts.Read.{ShiftResponse, open_of, check_open, to_response}
use kasirk_backend.Shifts.Session.{new_session, insert_session, open_shift}

-- No user has more than one open session.
abbrev pub IsSingleOpen : Db → Type 0
IsSingleOpen db = (tenant user : ℕ) → count_where (open_of tenant user) db.cashier_sessions ≤ 1

count_where-append :
    {A : Type 0} (p : A → Bool) (xs ys : List A)
    → count_where p (xs ++ ys) ≡ count_where p xs + count_where p ys
count_where-append p [] ys = omega arith
count_where-append p (x ∷ xs) ys = ground (arith, count_where-append p xs ys)

not_any-count : {A : Type 0} (p : A → Bool) (xs : List A) → any p xs ≡ false → count_where p xs ≡ 0
not_any-count p [] h = refl
not_any-count p (x ∷ xs) h = ground (arith, not_any-count p xs)

count_where-last :
    {A : Type 0} (p : A → Bool) (xs : List A) (y : A)
    → count_where p (xs ++ y ∷ []) ≡ count_where p xs + (if p y then 1 else 0)
count_where-last p xs y = count_where-append p xs (y ∷ []) ∙ omega arith

check_open-ok :
    (sub tenant : IdText) (outlet : ℕ) (db : Db) (a : ShiftActor)
    → check_open sub tenant outlet db ≡ ok a
    → any (open_of a.tenant_id a.user_id) db.cashier_sessions ≡ false
unfolding check_open
check_open-ok sub tenant outlet db a h =
    let (actor, _, h1) = >>=-eq-ok (actor_context sub tenant db) _ h in
    let (_, h2) =
      raise_if-eq-ok (is_cashier actor.role && not (opt_eq actor.outlet_id (some outlet))) _ _ h1 in
    let (_, h3) =
      raise_if-eq-ok
        (not
          (any (λ o. o.id == outlet && o.tenant_id == actor.tenant_id && o.is_active) db.outlets))
        _ _ h2 in
    let (free, h4) =
      raise_if-eq-ok (any (open_of actor.tenant_id actor.user_id) db.cashier_sessions) _ _ h3 in
    subst (λ (x : ShiftActor). any (open_of x.tenant_id x.user_id) db.cashier_sessions ≡ false)
      (ok-inj h4) free

new_session-single :
    (a : ShiftActor) (outlet : ℕ) (db : Db)
    → IsSingleOpen db
    → any (open_of a.tenant_id a.user_id) db.cashier_sessions ≡ false
    → (tenant user : ℕ)
    → count_where (open_of tenant user) (db.cashier_sessions ++ new_session a outlet db ∷ []) ≤ 1
new_session-single a outlet db single free tenant user =
    elim (Bool-cases (open_of tenant user (new_session a outlet db))) [
      | inr closed ↦
          let n =
            count_where-last (open_of tenant user) db.cashier_sessions (new_session a outlet db) in
          let none_new = ap {B = ℕ} (λ b. if b then 1 else 0) closed in
          omega (arith, n, none_new, single tenant user)
      | inl own ↦
          let (both, _) = and_parts (a.tenant_id == tenant && a.user_id == user) true own in
          let (t, u) = and_parts (a.tenant_id == tenant) (a.user_id == user) both in
          let free' =
            subst₂ (λ x y. any (open_of x y) db.cashier_sessions ≡ false)
              (==_eq a.tenant_id tenant t) (==_eq a.user_id user u) free in
          let n =
            count_where-last (open_of tenant user) db.cashier_sessions (new_session a outlet db) in
          let one_new = ap {B = ℕ} (λ b. if b then 1 else 0) own in
          omega (arith, n, one_new, not_any-count (open_of tenant user) db.cashier_sessions free')
    ]

-- If no user has more than one open session, none has after a shift is opened.
pub open_shift-IsSingleOpen :
    (sub tenant : IdText) (outlet : ℕ) (db db' : Db) (r : ShiftResponse)
    → IsSingleOpen db
    → open_shift sub tenant outlet db ≡ ok (r, db')
    → IsSingleOpen db'
unfolding open_shift insert_session
open_shift-IsSingleOpen sub tenant outlet db db' r single h =
    let (a, checked, h1) = reads-bind (check_open sub tenant outlet) _ db h in
    let (_, same) = lift-ok (to_response (new_session a outlet db)) _ h1 in
    subst IsSingleOpen (sym same)
      (new_session-single a outlet db single (check_open-ok sub tenant outlet db a checked))
