-- ===== src/HeldOrders/Evolution.antt =====
-- How the table of held orders may change from one state to a later one, and actions that keep to it.
use kasirk_backend.Base.{
  ◌⊎◌, inl, inr, ◌≤◌, ◌≡◌, refl, sym, ap, subst, ◌∙◌, Bool, true, false, List, [], ◌∷◌, ◌++◌, arith,
  if◌then◌else◌, update,
}
use kasirk_backend.Common.Errors.{Result, ok, HttpException, ok-pair}
use kasirk_backend.Database.Rows.{Db, HeldOrder, is_open_order}
use kasirk_backend.Database.Client.{
  Tx, ◌>>=◌, pure, gets, lift, raise_if, reads, bind-ok, lift-ok, raise_if-ok,
}

-- What may become of one order.
pub record IsStep (x y : HeldOrder) : Type 0 where
  pub same_id : y.id ≡ x.id
  pub same_tenant : y.tenant_id ≡ x.tenant_id
  pub version_grows : x.version ≤ y.version
  pub terminal_stays : (is_open_order x.status ≡ true) ⊎ (y ≡ x)

-- What may become of the table: every row takes a step, and new rows come after them.
abbrev pub Evolves : List HeldOrder → List HeldOrder → Type 0
Evolves [] ys = Unit
Evolves (x ∷ xs) [] = ⊥
Evolves (x ∷ xs) (y ∷ ys) = IsStep x y × Evolves xs ys

IsStep-refl : (x : HeldOrder) → IsStep x x
IsStep-refl x = record {
  same_id = refl;
  same_tenant = refl;
  version_grows = omega arith;
  terminal_stays = inr refl;
}

stays_trans :
    (x y z : HeldOrder)
    → (is_open_order x.status ≡ true) ⊎ (y ≡ x)
    → (is_open_order y.status ≡ true) ⊎ (z ≡ y)
    → (is_open_order x.status ≡ true) ⊎ (z ≡ x)
stays_trans x y z (inl o) t = inl o
stays_trans x y z (inr e) (inl o) = inl (ap (λ (h : HeldOrder). is_open_order h.status) (sym e) ∙ o)
stays_trans x y z (inr e) (inr f) = inr (f ∙ e)

IsStep-trans : (x y z : HeldOrder) → IsStep x y → IsStep y z → IsStep x z
IsStep-trans x y z s t = record {
  same_id = t.same_id ∙ s.same_id;
  same_tenant = t.same_tenant ∙ s.same_tenant;
  version_grows = omega (arith, s.version_grows, t.version_grows);
  terminal_stays = stays_trans x y z s.terminal_stays t.terminal_stays;
}

pub Evolves-refl : (xs : List HeldOrder) → Evolves xs xs
Evolves-refl [] = tt
Evolves-refl (x ∷ xs) = (IsStep-refl x, Evolves-refl xs)

pub Evolves-trans : (xs ys zs : List HeldOrder) → Evolves xs ys → Evolves ys zs → Evolves xs zs
Evolves-trans [] ys zs s t = tt
Evolves-trans (x ∷ xs) (y ∷ ys) (z ∷ zs) s t =
    (IsStep-trans x y z s.0 t.0, Evolves-trans xs ys zs s.1 t.1)
Evolves-trans (x ∷ xs) [] zs s t = absurd s
Evolves-trans (x ∷ xs) (y ∷ ys) [] s t = absurd t

pub Evolves-append : (xs ys : List HeldOrder) → Evolves xs (xs ++ ys)
Evolves-append [] ys = tt
Evolves-append (x ∷ xs) ys = (IsStep-refl x, Evolves-append xs ys)

-- An update that only takes open rows, and takes them a step.
pub Evolves-update :
    (p : HeldOrder → Bool) (f : HeldOrder → HeldOrder)
    → ((o : HeldOrder) → p o ≡ true → IsStep o (f o))
    → (xs : List HeldOrder) → Evolves xs (update p f xs)
Evolves-update p f step [] = tt
Evolves-update p f step (x ∷ xs) = (one (p x) refl, Evolves-update p f step xs)
  where
    one : (b : Bool) → p x ≡ b → IsStep x (if b then f x else x)
    one true e = step x e
    one false e = IsStep-refl x

-- An action after which the held orders have evolved.
abbrev pub Keeps : {A : Type 0} → Tx A → Type 0
Keeps {A} m =
    (db : Db) (a : A) (db' : Db) → m db ≡ ok (a, db') → Evolves db.held_orders db'.held_orders

pub unchanged-Evolves : (db db' : Db) → db' ≡ db → Evolves db.held_orders db'.held_orders
unchanged-Evolves db db' e =
    subst (λ (d : Db). Evolves db.held_orders d.held_orders) (sym e) (Evolves-refl db.held_orders)

pub Keeps-bind :
    {A B : Type 0} (m : Tx A) (f : A → Tx B) → Keeps m → ((a : A) → Keeps (f a)) → Keeps (m >>= f)
Keeps-bind m f km kf db b db'' h =
    let (a, db', p, q) = bind-ok m f db h in
    Evolves-trans db.held_orders db'.held_orders db''.held_orders (km db a db' p)
      (kf a db' b db'' q)

pub Keeps-gets : {A : Type 0} (f : Db → A) → Keeps (gets f)
Keeps-gets f db a db' h = unchanged-Evolves db db' (sym (ok-pair h).1)

pub Keeps-pure : {A : Type 0} (x : A) → Keeps (pure x)
Keeps-pure x db a db' h = unchanged-Evolves db db' (sym (ok-pair h).1)

pub Keeps-lift : {A : Type 0} (r : Result A) → Keeps (lift r)
Keeps-lift r db a db' h = unchanged-Evolves db db' (lift-ok r db h).1

pub Keeps-raise_if : (b : Bool) (e : HttpException) → Keeps (raise_if b e)
Keeps-raise_if b e db a db' h = unchanged-Evolves db db' (raise_if-ok b e db h).1

pub Keeps-reads : {A : Type 0} (r : Db → Result A) → Keeps (reads r)
Keeps-reads r db a db' h = unchanged-Evolves db db' (lift-ok (r db) db h).1
