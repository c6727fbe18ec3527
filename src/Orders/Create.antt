-- ===== src/Orders/Create.antt =====
-- `ordersService.create` (apps/api/src/modules/orders/orders.service.ts): the checks and the pricing on
-- what is read first (`prepare`), then the transaction (`create_write`). `before` is the engine's
-- `localeCompare`, `stripe_currency` the environment's STRIPE_CURRENCY.
pub mod Accounts
pub mod Total
pub mod Tests
use kartit.Prelude.{
  ℕ, Bool, true, false, Option, none, some, List, [], ◌∷◌, ◌==◌, if◌then◌else◌, ◌&&◌, not, map,
  String,
}
use kartit.Prelude.Int.{ℤ, pos, ◌+ℤ◌, ◌*ℤ◌, ltb_ℤ}
use kartit.Prelude.Table.{Table, find, insert}
use kartit.Result.{
  Result, ok, err, record_not_found, not_found, address_not_found, bad_request, cart_empty,
  conflict, product_inactive, insufficient_stock, promotion_invalid, unsupported_currency, throw_if,
}
use kartit.Result
use kartit.Shared.Text.{Text, text_eq}
use kartit.Shared.Enums.{pending, requires_payment}
use kartit.Shared.Pricing.{PricingBreakdown, calculate_pricing}
use kartit.Inventory.{available_stock, find_live, reserve_inventory}
use kartit.Promotions.{ValidatedPromotion, validate, lock_promotion}
use kartit.Store.{
  Db, Tx, Product, OrderItem, Address, Order, CartItem, Promotion, order_created, EventPayload,
  pure, gets, lift, put, outbox_create, ◌>>=◌, ◌>>◌,
}
use kartit.Cart.{Line, cart_lines, line_total, sum_lines, clear_cart, checked_promotion}
use kartit.Orders.{on_products}

-- The body of the loop that looks at each item again.
unfoldable pub check_line : Table Product → Line → Result (Unit {0})
check_line products line =
    if not line.product.is_active
    then err (conflict product_inactive)
    else if not line.product.category_active
    then err (conflict product_inactive)
    else if line.product.is_deleted
    then err (conflict product_inactive)
    else elim (find_live line.product_id products) [
      | err e ↦ err e
      | ok fresh ↦
          throw_if (ltb_ℤ (available_stock fresh) line.quantity) (conflict insufficient_stock)
    ]

unfoldable pub check_lines : Table Product → List Line → Result (Unit {0})
check_lines products [] = ok tt
check_lines products (line ∷ lines) = elim (check_line products line) [
  | err e ↦ err e
  | ok _ ↦ check_lines products lines
]

abbrev pub snapshot : Line → OrderItem
snapshot line = record {
  product_id = line.product_id;
  product_name = line.product.name;
  product_slug = line.product.slug;
  image_url = line.product.cover;
  unit_price_minor = line.product.price_minor;
  currency = line.product.currency;
  quantity = line.quantity;
  total_minor = line_total line;
}

-- What the transaction is handed.
pub record Draft : Type 0 where
  pub user_id : ℕ
  pub ship_to : Address
  pub cart_id : ℕ
  pub items : List OrderItem
  pub pricing : PricingBreakdown
  pub promotion_id : Option ℕ
  pub promotion_code : Option Text

pub record Input : Type 0 where
  pub shipping_address_id : ℕ
  pub promotion_code : Option Text

-- The clock and the ids and number that are made for the new rows.
pub record NewOrder : Type 0 where
  pub now : ℕ
  pub order_id : ℕ
  pub payment_id : ℕ
  pub outbox_id : ℕ
  pub order_number : Text

-- `shippingAddress.country ?? ""`
abbrev pub address_snapshot : Address → Address
address_snapshot address = record address {
  country = some (elim address.country [ none ↦ [] | some country ↦ country ]);
}

abbrev pub draft_for :
    Text → ℕ → Address → ℕ → Line → List Line → ℤ → Option ValidatedPromotion → Result Draft
draft_for stripe_currency user_id ship_to cart_id line lines subtotal promo =
    let pricing = calculate_pricing (record {
      subtotal = subtotal;
      currency = line.product.currency;
      discount_minor = elim promo [ none ↦ some (pos 0) | some p ↦ some p.discount_minor ];
    }) in
    if not (text_eq pricing.currency stripe_currency)
    then err (bad_request unsupported_currency)
    else ok (record {
      user_id = user_id;
      ship_to = address_snapshot ship_to;
      cart_id = cart_id;
      items = map snapshot (line ∷ lines);
      pricing = pricing;
      promotion_id = elim promo [ none ↦ none | some p ↦ some p.id ];
      promotion_code = elim promo [ none ↦ none | some p ↦ some p.code ];
    })

-- From the cart's items on.
unfoldable pub prepare_lines :
    Option (ℕ × Promotion)
    → Text
    → ℕ
    → ℕ
    → Option Text
    → Address
    → ℕ
    → List Line
    → Db
    → Result Draft
prepare_lines cached stripe_currency now user_id code ship_to cart_id [] db =
    err (bad_request cart_empty)
prepare_lines cached stripe_currency now user_id code ship_to cart_id (line ∷ lines) db =
    Result.◌>>=◌ (check_lines db.products (line ∷ lines)) λ _.
      let subtotal = sum_lines (pos 0) (line ∷ lines) in
      Result.◌>>=◌ (checked_promotion cached now code subtotal user_id db)
        λ promo. draft_for stripe_currency user_id ship_to cart_id line lines subtotal promo

-- The address, if it is the customer's own.
unfoldable pub own_address : ℕ → Option Address → Result Address
own_address user_id none = err (not_found address_not_found)
own_address user_id (some a) =
    if a.user_id == user_id then ok a else err (not_found address_not_found)

unfoldable pub prepare : Option (ℕ × Promotion) → Text → ℕ → ℕ → Input → Db → Result Draft
prepare cached stripe_currency now user_id input db =
    Result.◌>>=◌ (own_address user_id (find input.shipping_address_id db.addresses)) λ ship_to.
      elim (find user_id db.carts) [
        | none ↦ err (bad_request cart_empty)
        | some cart_id ↦ Result.◌>>=◌ (cart_lines cart_id db.products db.cart_items) λ lines.
            prepare_lines cached stripe_currency now user_id input.promotion_code ship_to cart_id
              lines db
      ]

abbrev pub new_order : NewOrder → Draft → Order
new_order ids draft = record {
  order_number = ids.order_number;
  user_id = draft.user_id;
  status = pending;
  subtotal_minor = draft.pricing.subtotal;
  discount_minor = draft.pricing.discount;
  shipping_minor = draft.pricing.shipping;
  tax_minor = draft.pricing.tax;
  total_minor = draft.pricing.total;
  promotion_id = draft.promotion_id;
  promotion_code = draft.promotion_code;
  currency = draft.pricing.currency;
  ship_to = draft.ship_to;
  items = draft.items;
  paid_at = none;
  delivered_at = none;
  created_at = ids.now;
  updated_at = ids.now;
}

-- The order with its payment, in one `order.create`.
abbrev pub create_rows : NewOrder → Draft → Db → Db
create_rows ids draft db = record db {
  orders = insert ids.order_id (new_order ids draft) db.orders;
  payments =
      insert ids.payment_id
        (record {
          order_id = ids.order_id;
          provider_payment_id = none;
          status = requires_payment;
          amount_minor = draft.pricing.total;
          currency = draft.pricing.currency;
          failure_reason = none;
        })
        db.payments;
}

abbrev pub created_event : NewOrder → Draft → EventPayload
created_event ids draft = record {
  order_number = ids.order_number;
  total_minor = draft.pricing.total;
  currency = draft.pricing.currency;
  user_id = draft.user_id;
  provider_payment_id = none;
}

abbrev pub lock_if : Option ℕ → ℕ → Db → Result (Unit {0})
lock_if none user_id db = ok tt
lock_if (some id) user_id db = lock_promotion id user_id db

module _ (before : ℕ → ℕ → Bool) where
  unfoldable pub create_write : NewOrder → Draft → Tx Order
  create_write ids draft = do
    allowed ← gets (lock_if draft.promotion_id draft.user_id)
    lift allowed
    on_products (λ t. reserve_inventory before t draft.items)
    put (create_rows ids draft)
    put (λ db. record db { cart_items = clear_cart draft.cart_id db.cart_items })
    put (outbox_create ids.outbox_id ids.order_id (order_created (created_event ids draft)))
    pure (new_order ids draft)

  unfoldable pub create : Option (ℕ × Promotion) → Text → NewOrder → ℕ → Input → Tx Order
  create cached stripe_currency ids user_id input db =
      elim (prepare cached stripe_currency ids.now user_id input db) [
        | err e ↦ err e
        | ok draft ↦ create_write ids draft db
      ]
