-- ===== src/Transactions/Core/SameRequest.antt =====
-- `assertSameRequest` on a sale and the request that made it.
use kasirk_backend.Base.{
  ℕ, suc, ◌+◌, ◌≡◌, refl, ap, ◌∙◌, Bool, true, List, [], ◌∷◌, map, Option, arith, ◌==◌, opt_eq,
  ==_refl, opt_eq_refl, length, All_mono,
}
use kasirk_backend.Base.Sort.{lists_eq, lists_eq_refl, sort, list_le}
use kasirk_backend.Database.Rows.{Db, PaymentMethod, cash, qris, edc}
use kasirk_backend.Transactions.Dto.{Checkout, PaymentDto}
use kasirk_backend.Transactions.Tender.{resolve_tender}
use kasirk_backend.Transactions.Pricing.{Totals}
use kasirk_backend.Transactions.Persist.{Actor, payment_row}
use kasirk_backend.Transactions.Persist.Effect.{sold, payment_id}
use kasirk_backend.Transactions.Response.{TransactionRecord, ItemRecord, read_record, read_item}
use kasirk_backend.Transactions.Replay.{
  same_lines, same_payment, same_request, persisted_key, requested_key,
}
use kasirk_backend.Transactions.Checks.{Party, Prepared}
use kasirk_backend.Transactions.Core.Sale.{IsPriced, price_sale-IsPriced, IsPrepared}
use kasirk_backend.Transactions.Core.WellFormed.{
  IsWellFormed, completed_row, sold-payments, sold-items,
}
use kasirk_backend.Transactions.Core.Keys.{validate_lines-keys, read_items-keys}

-- The payment of a sale is that of its request, method by method.
same_payment_by_method :
    (tenant tx id now : ℕ) (m : PaymentMethod) (a r : Option ℕ) (c : Bool) (t : Totals)
    → t.tender
      ≡ resolve_tender
          (record { method = m; amount = a; amount_received = r; has_change_amount = c })
    → same_payment
        (payment_row tenant tx
            (record { method = m; amount = a; amount_received = r; has_change_amount = c })
            t
            id
            now
          ∷ [])
        (record { method = m; amount = a; amount_received = r; has_change_amount = c })
      ≡ true
unfolding same_payment resolve_tender
same_payment_by_method tenant tx id now cash a r c t e = rw (e, opt_eq_refl)
same_payment_by_method tenant tx id now qris a r c t e = rw e
same_payment_by_method tenant tx id now edc a r c t e = rw e

same_payment_self :
    (tenant tx id now : ℕ) (p : PaymentDto) (t : Totals)
    → t.tender ≡ resolve_tender p
    → same_payment (payment_row tenant tx p t id now ∷ []) p ≡ true
same_payment_self tenant tx id now p t =
    same_payment_by_method tenant tx id now p.method p.amount p.amount_received p.has_change_amount
      t

same_lines_self :
    (items : List ItemRecord) (dto : Checkout)
    → map persisted_key items ≡ map requested_key dto.lines
    → same_lines items dto.lines ≡ true
unfolding same_lines
same_lines_self items dto e =
    ap (λ ks. lists_eq (sort list_le ks) (sort list_le (map requested_key dto.lines))) e
    ∙ lists_eq_refl _

same_request-parts :
    (x : TransactionRecord) (actor : Actor) (dto : Checkout)
    → (x.row.user_id == actor.sub) ≡ true
    → (x.row.outlet_id == dto.outlet_id) ≡ true
    → opt_eq x.row.cashier_session_id dto.cashier_session_id ≡ true
    → opt_eq x.row.customer_id dto.customer_id ≡ true
    → (x.row.discount == dto.discount) ≡ true
    → same_payment x.payments dto.payment ≡ true
    → same_lines x.items dto.lines ≡ true
    → same_request x actor dto ≡ true
unfolding same_request
same_request-parts x actor dto a b c d e f g = ground arith

module _ (actor : Actor) (dto : Checkout) (party : Party) (sale : Prepared) (db : Db)
    (w : IsWellFormed db) (prepared : IsPrepared actor party dto db sale) where
  abbrev pub sold_record : TransactionRecord
  sold_record =
      read_record (sold actor dto sale.items sale.totals db)
        (completed_row actor dto sale.totals db)

  priced : IsPriced party.tenant sale.items dto.discount dto.payment sale.totals
  priced =
      price_sale-IsPriced party.tenant sale.items dto.discount dto.payment sale.totals
        prepared.priced

  payments-sold : same_payment sold_record.payments dto.payment ≡ true
  unfolding read_record
  payments-sold =
      ap (λ ps. same_payment ps dto.payment) (sold-payments actor dto sale.items sale.totals db w)
      ∙ same_payment_self actor.tenant_id db.next_id (payment_id db sale.items) db.clock dto.payment
          sale.totals priced.tender_eq

  lines-sold : same_lines sold_record.items dto.lines ≡ true
  unfolding read_record
  lines-sold = same_lines_self sold_record.items dto (
      ap (λ is. map persisted_key (map (read_item (sold actor dto sale.items sale.totals db)) is))
        (sold-items actor dto sale.items sale.totals db w)
      ∙ read_items-keys actor.tenant_id db.next_id (suc db.next_id)
          (suc db.next_id + length sale.items) (sold actor dto sale.items sale.totals db)
          db.transaction_item_modifiers sale.items
          (All_mono _ _ (λ m h. omega arith) _ w.modifier_parents) refl
      ∙ validate_lines-keys prepared.catalog dto.lines sale.items prepared.items_valid)

  -- The request that was sold is the one that its rows answer.
  pub same_request-sold : same_request sold_record actor dto ≡ true
  unfolding read_record
  same_request-sold =
      same_request-parts sold_record actor dto (==_refl actor.sub) (==_refl dto.outlet_id)
        (opt_eq_refl dto.cashier_session_id) (opt_eq_refl dto.customer_id)
        (ap (λ d. d == dto.discount) priced.discount_eq ∙ ==_refl dto.discount) payments-sold
        lines-sold
