-- ===== src/Orders/Create/Total.antt =====
-- What a new order costs and what it uses of a promotion
-- (apps/api/src/modules/orders/orders.service.ts and orders.promotion-lock.ts).
use kartit.Prelude.{
  ℕ, ◌≡◌, ◌≤◌, refl, ◌∙◌, ap, Bool, false, Option, none, some, List, [], ◌∷◌, arith, map, inl, inr,
}
use kartit.Prelude.Int.{ℤ, pos, ◌+ℤ◌, ◌≤ℤ◌, int_laws, parts_of_eq}
use kartit.Prelude.Table.{find, insert, count-insert}
use kartit.Result.{ok, Result-cases, >>=-eq-ok}
use kartit.Shared.Text.{Text}
use kartit.Shared.Pricing.{PricingInput, calculate_pricing, clamp_subtotal}
use kartit.Shared.Pricing.Laws.{calculate_pricing_adds_up}
use kartit.Inventory.{reserve_inventory}
use kartit.Promotions.{
  ValidatedPromotion, is_use, is_use_by, is_exhausted, total_use_count, user_use_count,
  lock_promotion,
}
use kartit.Store.{Db, Order, OrderItem, Address, Promotion}
use kartit.Cart.{Line, line_total, sum_lines, checked_promotion}
use kartit.Orders.Create.{
  Draft, Input, NewOrder, snapshot, check_lines, draft_for, prepare_lines, prepare, lock_if,
  new_order, create_write, create,
}
use kartit.Orders.Create.Accounts.{prepare-lines}

-- The sum of the items' own totals.
unfoldable pub items_total : List OrderItem → ℤ
items_total [] = pos 0
items_total (item ∷ items) = item.total_minor +ℤ items_total items

sum_lines-items_total :
    (acc : ℤ) (lines : List Line) → sum_lines acc lines ≡ acc +ℤ items_total (map snapshot lines)
unfolding sum_lines items_total
sum_lines-items_total acc [] = omega int_laws
sum_lines-items_total acc (line ∷ lines) =
    omega (int_laws, parts_of_eq (sum_lines-items_total (acc +ℤ line_total line) lines))

-- A draft whose amounts add up.
pub record IsPriced (draft : Draft) : Type 0 where
  pub subtotal : draft.pricing.subtotal ≡ clamp_subtotal (items_total draft.items)
  pub discount_nonneg : pos 0 ≤ℤ draft.pricing.discount
  pub discount_bound : draft.pricing.discount ≤ℤ draft.pricing.subtotal
  pub sum :
      draft.pricing.total +ℤ draft.pricing.discount
      ≡ draft.pricing.subtotal +ℤ draft.pricing.shipping +ℤ draft.pricing.tax

abbrev input_of : Line → List Line → Option ValidatedPromotion → PricingInput
input_of line lines promo = record {
  subtotal = sum_lines (pos 0) (line ∷ lines);
  currency = line.product.currency;
  discount_minor = elim promo [ none ↦ some (pos 0) | some p ↦ some p.discount_minor ];
}

draft_for-eq-ok :
    (stripe_currency : Text) (user_id : ℕ) (a : Address) (cart_id : ℕ) (line : Line)
    (lines : List Line) (promo : Option ValidatedPromotion) (draft : Draft)
    → draft_for stripe_currency user_id a cart_id line lines
        (sum_lines (pos 0) (line ∷ lines))
        promo
      ≡ ok draft
    → (draft.pricing ≡ calculate_pricing (input_of line lines promo))
      × (draft.items ≡ map snapshot (line ∷ lines))
draft_for-eq-ok stripe_currency user_id a cart_id line lines promo draft e =
    (ground arith, ground arith)

calculate_pricing-subtotal :
    (input : PricingInput) → (calculate_pricing input).subtotal ≡ clamp_subtotal input.subtotal
unfolding calculate_pricing
calculate_pricing-subtotal input = refl

draft_for-IsPriced :
    (stripe_currency : Text) (user_id : ℕ) (a : Address) (cart_id : ℕ) (line : Line)
    (lines : List Line) (promo : Option ValidatedPromotion) (draft : Draft)
    → draft_for stripe_currency user_id a cart_id line lines
        (sum_lines (pos 0) (line ∷ lines))
        promo
      ≡ ok draft
    → IsPriced draft
draft_for-IsPriced stripe_currency user_id a cart_id line lines promo draft e =
    let (pricing, items) =
      draft_for-eq-ok stripe_currency user_id a cart_id line lines promo draft e in
    let (d, b, _, _, sum) = calculate_pricing_adds_up (input_of line lines promo) in
    record {
      subtotal =
          rw (pricing, items)
            (calculate_pricing-subtotal (input_of line lines promo)
              ∙ ap clamp_subtotal (sum_lines-items_total (pos 0) (line ∷ lines) ∙ zero_add _));
      discount_nonneg = rw pricing d;
      discount_bound = rw pricing b;
      sum = rw pricing sum;
    }
  where
    zero_add : (n : ℤ) → pos 0 +ℤ n ≡ n
    zero_add n = omega int_laws

prepare_lines-IsPriced :
    (cached : Option (ℕ × Promotion)) (stripe_currency : Text) (now user_id : ℕ)
    (code : Option Text) (a : Address) (cart_id : ℕ) (lines : List Line) (db : Db) (draft : Draft)
    → prepare_lines cached stripe_currency now user_id code a cart_id lines db ≡ ok draft
    → IsPriced draft
unfolding prepare_lines
prepare_lines-IsPriced cached stripe_currency now user_id code a cart_id [] db draft e =
    absurd (ground arith)
prepare_lines-IsPriced cached stripe_currency now user_id code a cart_id (line ∷ lines) db draft e =
    let subtotal = sum_lines (pos 0) (line ∷ lines) in
    let (u, checked, e') = >>=-eq-ok (check_lines db.products (line ∷ lines)) _ e in
    let (promo, valid, e'') =
      >>=-eq-ok (checked_promotion cached now code subtotal user_id db) _ e' in
    draft_for-IsPriced stripe_currency user_id a cart_id line lines promo draft e''

prepare-IsPriced :
    (cached : Option (ℕ × Promotion)) (stripe_currency : Text) (now user_id : ℕ) (input : Input)
    (db : Db) (draft : Draft)
    → prepare cached stripe_currency now user_id input db ≡ ok draft
    → IsPriced draft
prepare-IsPriced cached stripe_currency now user_id input db draft e =
    let (a, cart_id, lines, read, e') =
      prepare-lines cached stripe_currency now user_id input db draft e in
    prepare_lines-IsPriced cached stripe_currency now user_id input.promotion_code a cart_id lines
      db draft e'

lock_promotion-eq-ok :
    (id user_id : ℕ) (promo : Promotion) (db : Db)
    → find id db.promotions ≡ some promo
    → lock_promotion id user_id db ≡ ok tt
    → (is_exhausted promo.max_uses (total_use_count id db.orders) ≡ false)
      × (is_exhausted promo.max_uses_per_user (user_use_count id user_id db.orders) ≡ false)
unfolding lock_promotion
lock_promotion-eq-ok id user_id promo db found e = (ground arith, ground arith)

module _ (before : ℕ → ℕ → Bool) where
  create_write-eq-ok :
      (ids : NewOrder) (draft : Draft) (db db' : Db) (r : Order)
      → create_write before ids draft db ≡ ok (r, db')
      → (lock_if draft.promotion_id draft.user_id db ≡ ok tt)
        × (db'.orders ≡ insert ids.order_id (new_order ids draft) db.orders)
        × (r ≡ new_order ids draft)
  unfolding create_write
  create_write-eq-ok ids draft db db' r e =
      elim (Result-cases (lock_if draft.promotion_id draft.user_id db)) [
        | inr (why, f) ↦ absurd (ground arith)
        | inl (u, f) ↦ elim (Result-cases (reserve_inventory before db.products draft.items)) [
          | inr (why, g) ↦ absurd (ground arith)
          | inl (t, g) ↦ (f, ground arith, ground arith)
        ]
      ]

  -- A transaction that creates an order under a promotion keeps the promotion's limits: afterwards no more orders use it than it allows in all, and no more of this customer's than it allows for one customer.
  pub create_write-limits :
      (ids : NewOrder) (draft : Draft) (id : ℕ) (promo : Promotion) (db db' : Db) (r : Order)
      → draft.promotion_id ≡ some id
      → find id db.promotions ≡ some promo
      → create_write before ids draft db ≡ ok (r, db')
      → ((m : ℕ) → promo.max_uses ≡ some m → total_use_count id db'.orders ≤ m)
        × ((m : ℕ)
            → promo.max_uses_per_user ≡ some m
            → user_use_count id draft.user_id db'.orders ≤ m)
  create_write-limits ids draft id promo db db' r named found e =
      let (locked, orders, _) = create_write-eq-ok ids draft db db' r e in
      let (all, own) = lock_promotion-eq-ok id draft.user_id promo db found (rw named at locked) in
      let o = new_order ids draft in
      (
        λ m limit.
            rw orders
              (grind (arith, count-insert (is_use id) ids.order_id o db.orders, all, limit)),
        λ m limit. rw orders (
            grind (
              arith,
              count-insert (is_use_by id draft.user_id) ids.order_id o db.orders,
              own,
              limit,
            )),
      )

  -- The order that a checkout creates charges for what is in it: its subtotal is the sum of its items' totals (0 where that were below 0), its discount lies between 0 and the subtotal, and its total is the subtotal less the discount, plus shipping and tax.
  pub create_total :
      (cached : Option (ℕ × Promotion)) (stripe_currency : Text) (ids : NewOrder) (user_id : ℕ)
      (input : Input) (db db' : Db) (r : Order)
      → create before cached stripe_currency ids user_id input db ≡ ok (r, db')
      → (r.subtotal_minor ≡ clamp_subtotal (items_total r.items))
        × (pos 0 ≤ℤ r.discount_minor)
        × (r.discount_minor ≤ℤ r.subtotal_minor)
        × (r.total_minor +ℤ r.discount_minor ≡ r.subtotal_minor +ℤ r.shipping_minor +ℤ r.tax_minor)
  unfolding create
  create_total cached stripe_currency ids user_id input db db' r e =
      elim (Result-cases (prepare cached stripe_currency ids.now user_id input db)) [
        | inr (why, f) ↦ absurd (ground arith)
        | inl (draft, f) ↦
            let (_, _, same) = create_write-eq-ok ids draft db db' r (ground arith) in
            let priced = prepare-IsPriced cached stripe_currency ids.now user_id input db draft f in
            rw same (priced.subtotal, priced.discount_nonneg, priced.discount_bound, priced.sum)
      ]
