-- ===== src/Transactions/Core/Keys.antt =====
-- The keys by which `assertSameRequest` compares lines, of requested, validated and stored lines.
use mathlib.Core.List.{append-nil, append_assoc}
use kasirk_backend.Base.{
  ℕ, suc, ◌+◌, ◌<◌, ◌≡◌, refl, sym, ap, ap₂, ◌∙◌, Bool, false, List, [], ◌∷◌, ◌++◌, map, arith,
  ◌==◌, length, find, find-true, ==_eq, select, All, All-append, All_mono, select-append,
  select_none,
}
use kasirk_backend.Common.Errors.{ok, >>=-eq-ok, or_raise-eq-ok, raise_if-eq-ok, ok-inj}
use kasirk_backend.Database.Rows.{Db, TransactionItemModifier}
use kasirk_backend.Transactions.Dto.{Line}
use kasirk_backend.Transactions.Catalog.{
  Catalog, Assignment, ValidatedItem, ResolvedOption, resolve_options, resolve_modifiers,
  validate_line, validate_lines, resolve_option, check_none_required, check_selections,
}
use kasirk_backend.Database.Rows.{ModifierOption}
use kasirk_backend.Transactions.Persist.Effect.{item_rows, option_rows, line_option_rows}
use kasirk_backend.Transactions.Response.{read_item}
use kasirk_backend.Transactions.Replay.{option_ids, line_key, persisted_key, requested_key}

abbrev pub resolved_ids : List ResolvedOption → List ℕ
resolved_ids = map (λ o. o.id)

-- The key of a line as it was validated.
abbrev pub item_key : ValidatedItem → List ℕ
item_key vi = line_key vi.product.id vi.quantity vi.note (resolved_ids vi.options)

resolve_option-id :
    (assignments : List Assignment) (options : List ModifierOption) (i : ℕ) (o : ResolvedOption)
    → resolve_option assignments options i ≡ ok o
    → o.id ≡ i
unfolding resolve_option
resolve_option-id assignments options i o h =
    let (opt, found, h1) = or_raise-eq-ok (find (λ x. x.id == i) options) _ _ h in
    let (a, _, h2) =
      or_raise-eq-ok (find (λ x. x.modifier_group_id == opt.modifier_group_id) assignments) _ _
        h1 in
    let (_, h3) = raise_if-eq-ok _ _ _ h2 in
    sym (ap (λ (r : ResolvedOption). r.id) (ok-inj h3))
    ∙ ==_eq opt.id i (find-true _ options opt found)

-- The resolved options are the requested ones, in order.
resolve_options-ids :
    (assignments : List Assignment) (options : List ModifierOption) (ids : List ℕ)
    (rs : List ResolvedOption)
    → resolve_options assignments options ids ≡ ok rs
    → resolved_ids rs ≡ ids
unfolding resolve_options
resolve_options-ids assignments options [] rs h = ground arith
resolve_options-ids assignments options (i ∷ ids) rs h =
    let (o, one, h1) = >>=-eq-ok (resolve_option assignments options i) _ h in
    let (rest, others, h2) = >>=-eq-ok (resolve_options assignments options ids) _ h1 in
    sym (ap resolved_ids (ok-inj h2))
    ∙ ap₂ ◌∷◌ (resolve_option-id assignments options i o one)
        (resolve_options-ids assignments options ids rest others)

resolve_modifiers-ids :
    (assignments : List Assignment) (options : List ModifierOption) (ids : List ℕ)
    (rs : List ResolvedOption)
    → resolve_modifiers assignments options ids ≡ ok rs
    → resolved_ids rs ≡ ids
unfolding resolve_modifiers
resolve_modifiers-ids assignments options [] rs h =
    let (_, _, h1) = >>=-eq-ok (check_none_required assignments) _ h in
    sym (ap resolved_ids (ok-inj h1))
resolve_modifiers-ids assignments options (i ∷ ids) rs h =
    let (o, one, h1) = >>=-eq-ok (resolve_options assignments options (i ∷ ids)) _ h in
    let (_, _, h2) = >>=-eq-ok (check_selections o assignments) _ h1 in
    sym (ap resolved_ids (ok-inj h2)) ∙ resolve_options-ids assignments options (i ∷ ids) o one

validate_line-key :
    (c : Catalog) (l : Line) (vi : ValidatedItem)
    → validate_line c l ≡ ok vi
    → item_key vi ≡ requested_key l
unfolding validate_line requested_key
validate_line-key c l vi h =
    let (p, found, h1) = or_raise-eq-ok (find (λ x. x.id == l.product_id) c.products) _ _ h in
    let (os, resolved, h2) =
      >>=-eq-ok
        (resolve_modifiers (select (λ a. a.product_id == l.product_id) c.assignments) c.options
          l.modifier_option_ids)
        _ h1 in
    sym (ap item_key (ok-inj h2))
    ∙ ap₂ (λ i ids. line_key i l.quantity l.note ids)
        (==_eq p.id l.product_id (find-true _ c.products p found))
        (resolve_modifiers-ids (select (λ a. a.product_id == l.product_id) c.assignments) c.options
          l.modifier_option_ids os resolved)

pub validate_lines-keys :
    (c : Catalog) (lines : List Line) (items : List ValidatedItem)
    → validate_lines c lines ≡ ok items
    → map item_key items ≡ map requested_key lines
unfolding validate_lines
validate_lines-keys c [] items h = sym (ap (map item_key) (ok-inj h))
validate_lines-keys c (l ∷ ls) items h =
    let (vi, one, h1) = >>=-eq-ok (validate_line c l) _ h in
    let (rest, others, h2) = >>=-eq-ok (validate_lines c ls) _ h1 in
    sym (ap (map item_key) (ok-inj h2))
    ∙ ap₂ ◌∷◌ (validate_line-key c l vi one) (validate_lines-keys c ls rest others)

abbrev under : ℕ → TransactionItemModifier → Bool
under item m = m.transaction_item_id == item

option_rows-ids :
    (tenant tx item n : ℕ) (options : List ResolvedOption)
    → option_ids (select (under item) (option_rows tenant tx item n options)) ≡ resolved_ids options
unfolding option_ids
option_rows-ids tenant tx item n [] = refl
option_rows-ids tenant tx item n (o ∷ options) =
    ground (arith, option_rows-ids tenant tx item (suc n) options)

option_rows-not_under :
    (tenant tx item other n : ℕ) (options : List ResolvedOption)
    → item < other
    → All (λ m. under item m ≡ false) (option_rows tenant tx other n options)
option_rows-not_under tenant tx item other n [] h = tt
option_rows-not_under tenant tx item other n (o ∷ options) h =
    (ground arith, option_rows-not_under tenant tx item other (suc n) options h)

later_rows-not_under :
    (tenant tx item other n : ℕ) (items : List ValidatedItem)
    → item < other
    → All (λ m. under item m ≡ false) (line_option_rows tenant tx other n items)
later_rows-not_under tenant tx item other n [] h = tt
later_rows-not_under tenant tx item other n (vi ∷ items) h =
    All-append _ (option_rows tenant tx other n vi.options) _
      (option_rows-not_under tenant tx item other n vi.options h)
      (later_rows-not_under tenant tx item (suc other) (n + length vi.options) items (omega arith))

option_rows-before :
    (tenant tx item n : ℕ) (options : List ResolvedOption)
    → All (λ m. m.transaction_item_id < suc item) (option_rows tenant tx item n options)
option_rows-before tenant tx item n [] = tt
option_rows-before tenant tx item n (o ∷ options) =
    (omega arith, option_rows-before tenant tx item (suc n) options)

-- The options of the first line, among those of all lines and of earlier sales.
first_line-ids :
    (tenant tx item n : ℕ) (old : List TransactionItemModifier) (vi : ValidatedItem)
    (items : List ValidatedItem)
    → All (λ m. m.transaction_item_id < item) old
    → option_ids (select (under item) (old ++ line_option_rows tenant tx item n (vi ∷ items)))
      ≡ resolved_ids vi.options
first_line-ids tenant tx item n old vi items h =
    ap option_ids (
      select-append (under item) old _
      ∙ ap₂ ◌++◌ (select_none (under item) old (All_mono _ _ (λ m k. ground arith) old h)) (
          select-append (under item) (option_rows tenant tx item n vi.options) _
          ∙ ap (λ r. select (under item) (option_rows tenant tx item n vi.options) ++ r)
              (select_none (under item) _ (
                later_rows-not_under tenant tx item (suc item) (n + length vi.options) items
                  (omega arith)))
          ∙ append-nil _))
    ∙ option_rows-ids tenant tx item n vi.options

-- Every line of a sale reads back with its key, whatever else the tables hold.
pub read_items-keys :
    (tenant tx item n : ℕ) (db : Db) (old : List TransactionItemModifier)
    (items : List ValidatedItem)
    → All (λ m. m.transaction_item_id < item) old
    → db.transaction_item_modifiers ≡ old ++ line_option_rows tenant tx item n items
    → map persisted_key (map (read_item db) (item_rows tenant tx item items)) ≡ map item_key items
unfolding persisted_key
read_items-keys tenant tx item n db old [] h e = refl
read_items-keys tenant tx item n db old (vi ∷ items) h e =
    ap₂ ◌∷◌
      (ap (line_key vi.product.id vi.quantity vi.note) (
        ap (λ ms. option_ids (select (under item) ms)) e
        ∙ first_line-ids tenant tx item n old vi items h))
      (read_items-keys tenant tx (suc item) (n + length vi.options) db
        (old ++ option_rows tenant tx item n vi.options) items
        (All-append _ old _ (All_mono _ _ (λ m k. omega arith) old h)
          (option_rows-before tenant tx item n vi.options))
        (e ∙ sym (append_assoc old _ _)))
