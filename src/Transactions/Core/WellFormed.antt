-- ===== src/Transactions/Core/WellFormed.antt =====
-- When the ids of the tables are in order, and the rows of a sale among those of others.
use kasirk_backend.Base.{
  ℕ, suc, ◌+◌, ◌≤◌, ◌<◌, ◌≡◌, ap, ap₂, ◌∙◌, true, false, ◌&&◌, List, [], ◌∷◌, ◌++◌, some, arith,
  ◌==◌, length, find, select, All, All-append, All_mono, find-none, find_last, update_last,
  select-append, select_none, select_all,
}
use kasirk_backend.Database.Rows.{Db, Transaction, completed}
use kasirk_backend.Transactions.Dto.{Checkout}
use kasirk_backend.Transactions.Catalog.{ValidatedItem, ResolvedOption}
use kasirk_backend.Transactions.Pricing.{Totals}
use kasirk_backend.Transactions.Persist.{Actor, payment_row}
use kasirk_backend.Transactions.Persist.Effect.{
  sold, sale_row, item_rows, option_rows, line_option_rows, sale_items, payment_id,
}

pub record IsWellFormed (db : Db) : Type 0 where
  pub transaction_ids : All (λ t. t.id < db.next_id) db.transactions
  pub item_ids : All (λ i. i.id < db.next_id) db.transaction_items
  pub item_parents : All (λ i. i.transaction_id < db.next_id) db.transaction_items
  pub modifier_parents : All (λ m. m.transaction_item_id < db.next_id) db.transaction_item_modifiers
  pub payment_parents : All (λ p. p.transaction_id < db.next_id) db.payments

lt_not_eq : (a b : ℕ) → a < b → (a == b) ≡ false
lt_not_eq a b h = ground arith

abbrev pub completed_row : Actor → Checkout → Totals → Db → Transaction
completed_row user dto t db = record (sale_row user dto t db) { status = completed }

module _ (user : Actor) (dto : Checkout) (items : List ValidatedItem) (t : Totals) (db : Db)
    (w : IsWellFormed db) where
  not_yet : All (λ r. (r.id == db.next_id && r.tenant_id == user.tenant_id) ≡ false) db.transactions
  not_yet = All_mono _ _ (λ r h. ground (arith, lt_not_eq r.id db.next_id h)) _ w.transaction_ids

  -- The transactions after a sale: those before, and the new one, completed.
  pub sold-transactions :
      (sold user dto items t db).transactions ≡ db.transactions ++ completed_row user dto t db ∷ []
  sold-transactions =
      update_last _ _ db.transactions (sale_row user dto t db) not_yet (ground arith)

  pub sold-find :
      find
        (λ r. r.id == db.next_id && r.tenant_id == user.tenant_id)
        (sold user dto items t db).transactions
      ≡ some (completed_row user dto t db)
  sold-find =
      ap (find _) sold-transactions
      ∙ find_last _ db.transactions _ (find-none _ _ not_yet) (ground arith)

  pub sold-payments :
      select (λ p. p.transaction_id == db.next_id) (sold user dto items t db).payments
      ≡ payment_row user.tenant_id db.next_id dto.payment t (payment_id db items) db.clock ∷ []
  sold-payments =
      select-append _ db.payments _
      ∙ ap₂ ◌++◌
          (select_none _ _
            (All_mono _ _ (λ p h. lt_not_eq p.transaction_id db.next_id h) _ w.payment_parents))
          (ground arith)

item_rows-bounds :
    (tenant tx n b : ℕ) (items : List ValidatedItem)
    → tx < b
    → n + length items ≤ b
    → All (λ i. i.id < b) (item_rows tenant tx n items)
      × All (λ i. i.transaction_id < b) (item_rows tenant tx n items)
item_rows-bounds tenant tx n b [] h k = (tt, tt)
item_rows-bounds tenant tx n b (vi ∷ items) h k =
    let (ids, parents) = item_rows-bounds tenant tx (suc n) b items h (omega arith) in
    ((omega arith, ids), (h, parents))

option_rows-parents :
    (tenant tx item n b : ℕ) (options : List ResolvedOption)
    → item < b
    → All (λ m. m.transaction_item_id < b) (option_rows tenant tx item n options)
option_rows-parents tenant tx item n b [] h = tt
option_rows-parents tenant tx item n b (o ∷ options) h =
    (h, option_rows-parents tenant tx item (suc n) b options h)

line_option_rows-parents :
    (tenant tx item n b : ℕ) (items : List ValidatedItem)
    → item + length items ≤ b
    → All (λ m. m.transaction_item_id < b) (line_option_rows tenant tx item n items)
line_option_rows-parents tenant tx item n b [] h = tt
line_option_rows-parents tenant tx item n b (vi ∷ items) h =
    All-append _ (option_rows tenant tx item n vi.options) _
      (option_rows-parents tenant tx item n b vi.options (omega arith))
      (line_option_rows-parents tenant tx (suc item) (n + length vi.options) b items (omega arith))

item_rows-parents :
    (tenant tx n : ℕ) (items : List ValidatedItem)
    → All (λ i. (i.transaction_id == tx) ≡ true) (item_rows tenant tx n items)
item_rows-parents tenant tx n [] = tt
item_rows-parents tenant tx n (vi ∷ items) =
    (ground arith, item_rows-parents tenant tx (suc n) items)

module _ (user : Actor) (dto : Checkout) (items : List ValidatedItem) (t : Totals) (db : Db)
    (w : IsWellFormed db) where
  pub sold-items :
      select (λ i. i.transaction_id == db.next_id) (sold user dto items t db).transaction_items
      ≡ sale_items user db items
  sold-items =
      select-append _ db.transaction_items _
      ∙ ap₂ ◌++◌
          (select_none _ _
            (All_mono _ _ (λ i h. lt_not_eq i.transaction_id db.next_id h) _ w.item_parents))
          (select_all _ _ (item_rows-parents user.tenant_id db.next_id (suc db.next_id) items))

  -- A bound on ids stays one when the sale has used more of them.
  raise_bound : (n : ℕ) → n < db.next_id → n < suc (payment_id db items)
  raise_bound n h = omega arith

  pub sold-IsWellFormed : IsWellFormed (sold user dto items t db)
  sold-IsWellFormed =
      let (ids, parents) =
        item_rows-bounds user.tenant_id db.next_id (suc db.next_id) (suc (payment_id db items))
          items (omega arith) (omega arith) in
      record {
        transaction_ids = rw (sold-transactions user dto items t db w) (
            All-append _ db.transactions _
              (All_mono _ _ (λ r. raise_bound r.id) _ w.transaction_ids) (omega arith, tt));
        item_ids =
            All-append _ db.transaction_items _ (All_mono _ _ (λ i. raise_bound i.id) _ w.item_ids)
              ids;
        item_parents =
            All-append _ db.transaction_items _
              (All_mono _ _ (λ i. raise_bound i.transaction_id) _ w.item_parents) parents;
        modifier_parents =
            All-append _ db.transaction_item_modifiers _
              (All_mono _ _ (λ m. raise_bound m.transaction_item_id) _ w.modifier_parents)
              (line_option_rows-parents user.tenant_id db.next_id (suc db.next_id)
                (suc db.next_id + length items) _ items (omega arith));
        payment_parents =
            All-append _ db.payments _
              (All_mono _ _ (λ p. raise_bound p.transaction_id) _ w.payment_parents)
              (omega arith, tt);
      }
