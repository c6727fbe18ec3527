-- ===== src/Orders/Webhook/Accounts.antt =====
-- Stripe's events keep the stock accounts (apps/api/src/modules/orders/orders.payment.service.ts).
use kartit.Prelude.{
  ℕ, ◌≡◌, refl, ap, ◌∙◌, Bool, true, false, Option, none, some, arith, Bool-cases, Option-cases,
  inl, inr, ◌⊎◌,
}
use kartit.Prelude.Table.{Table, find, modify}
use kartit.Result.{Result, ok, Result-cases}
use kartit.Shared.Text.{Text}
use kartit.Shared.Enums.{
  OrderStatus, payment_succeeded, pending, paid, failed, refunded, stock_held,
}
use kartit.Shared.Transitions.{status_eq}
use kartit.Inventory.{restore_inventory}
use kartit.Store.{Db, Order, Product, after}
use kartit.Orders.{Ctx, update_many, was_shipped, set_status, find_by_provider_id}
use kartit.Orders.Webhook.{
  Intent, find_intent, mark_paid_flipped, mark_paid_write, mark_paid_from, mark_failed_from,
  mark_refunded_from, is_payment_status, mark_paid_by_payment_intent, mark_failed_flipped,
  mark_failed_write, mark_failed_by_payment_intent, mark_refunded_flipped, mark_refunded_write,
  mark_refunded_by_payment_intent,
}
use kartit.Orders.Accounting.{
  Keeps, Keeps-refl, Keeps-same, Keeps-release, Keeps-return, Keeps-relabel, items_of_find,
}

-- A write that goes through has rewritten the order, at one of the statuses that it allows, and moved
-- the stock; or it has done nothing.
abbrev Rewrites :
    ℕ
    → (OrderStatus → Bool)
    → (Order → Order)
    → (Table Product → Result (Table Product))
    → Db
    → Db
    → Type 0
Rewrites id allowed f move db db' =
    (db' ≡ db)
    ⊎ ((o : Order) × (find id db.orders ≡ some o)
        × (allowed o.status ≡ true)
        × (move db.products ≡ ok db'.products)
        × (db'.orders ≡ modify id f db.orders)
        × (db'.cart_items ≡ db.cart_items))

abbrev set_paid : Ctx → Order → Order
set_paid ctx o = record o { status = paid; paid_at = some ctx.now; updated_at = ctx.now }

mark_paid_write-eq-ok :
    (ctx : Ctx) (i : Intent) (db : Db) (r : Option Order × Db)
    → mark_paid_write ctx i db ≡ ok r
    → Rewrites i.payment.order_id (status_eq pending) (set_paid ctx) ok db r.1
unfolding mark_paid_write mark_paid_flipped update_many
mark_paid_write-eq-ok ctx i db r e = elim (Option-cases (find i.payment.order_id db.orders)) [
  | inl h ↦ inl (ground arith)
  | inr (o, h) ↦ elim (Bool-cases (status_eq pending o.status)) [
    | inr other ↦ inl (ground arith)
    | inl same ↦ inr (o, h, same, ground arith, ground arith, ground arith)
  ]
]

mark_failed_write-eq-ok :
    (ctx : Ctx) (reason : Option Text) (i : Intent) (db : Db) (r : Option Order × Db)
    → mark_failed_write ctx reason i db ≡ ok r
    → Rewrites i.payment.order_id
        (status_eq pending)
        (set_status ctx.now failed)
        (λ t. restore_inventory t i.order.items false)
        db
        r.1
unfolding mark_failed_write mark_failed_flipped update_many
mark_failed_write-eq-ok ctx reason i db r e =
    elim (Option-cases (find i.payment.order_id db.orders)) [
      | inl h ↦ inl (ground arith)
      | inr (o, h) ↦ elim (Bool-cases (status_eq pending o.status)) [
        | inr other ↦ inl (ground arith)
        | inl same ↦ inr (o, h, same, ground arith, ground arith, ground arith)
      ]
    ]

mark_refunded_write-eq-ok :
    (ctx : Ctx) (i : Intent) (db : Db) (r : Option Order × Db)
    → mark_refunded_write ctx i db ≡ ok r
    → Rewrites i.payment.order_id stock_held
        (set_status ctx.now refunded)
        (λ t. restore_inventory t i.order.items (was_shipped i.order.status))
        db
        r.1
unfolding mark_refunded_write mark_refunded_flipped update_many
mark_refunded_write-eq-ok ctx i db r e = elim (Option-cases (find i.payment.order_id db.orders)) [
  | inl h ↦ inl (ground arith)
  | inr (o, h) ↦ elim (Bool-cases (stock_held o.status)) [
    | inr other ↦ inl (ground arith)
    | inl same ↦ inr (o, h, same, ground arith, ground arith, ground arith)
  ]
]

-- Stock held at `stock_held` is reserved or away, and the refund tells the two apart.
release_refunded :
    (ctx : Ctx) (id : ℕ) (x : Order) (t' : Table Product) (db : Db)
    → find id db.orders ≡ some x
    → stock_held x.status ≡ true
    → restore_inventory db.products x.items (was_shipped x.status) ≡ ok t'
    → Keeps db
        (record db { products = t'; orders = modify id (set_status ctx.now refunded) db.orders })
release_refunded ctx id x t' db found status restored = elim (Bool-cases (was_shipped x.status)) [
  | inl w ↦
      Keeps-return db id x (set_status ctx.now refunded) t' found (λ y. refl) (ground arith)
        (ground arith) refl refl (rw w at restored)
  | inr w ↦
      Keeps-release db id x (set_status ctx.now refunded) t' found (λ y. refl) (ground arith)
        (ground arith) refl refl (rw w at restored)
]

module _ (ctx : Ctx) (i : Intent) (db : Db) (o : Order)
    (found : find i.payment.order_id db.orders ≡ some o) where
  abbrev id : ℕ
  id = i.payment.order_id

  same_row : (x : Order) → find id db.orders ≡ some x → o ≡ x
  same_row x here = ground (arith, found, here)

  -- A late event finds the order at another status and does nothing, or marks it and keeps the accounts.
  mark_paid_write-Keeps : Keeps db (after (mark_paid_write ctx i db) db)
  mark_paid_write-Keeps = elim (Result-cases (mark_paid_write ctx i db)) [
    | inr (why, e) ↦ rw e (Keeps-refl db)
    | inl (r, e) ↦ elim (mark_paid_write-eq-ok ctx i db r e) [
      | inl same ↦ rw (e, same) (Keeps-refl db)
      | inr (x, here, status, products, orders, carts) ↦ rw e (
          Keeps-same refl (orders, carts)
            (Keeps-relabel db id x (set_paid ctx) r.1.products here (λ y. refl) (ground arith)
              (ground arith) (ground arith) refl))
    ]
  ]

  mark_failed_write-Keeps :
      (reason : Option Text)
      → i.order.items ≡ o.items
      → Keeps db (after (mark_failed_write ctx reason i db) db)
  mark_failed_write-Keeps reason items = elim (Result-cases (mark_failed_write ctx reason i db)) [
    | inr (why, e) ↦ rw e (Keeps-refl db)
    | inl (r, e) ↦ elim (mark_failed_write-eq-ok ctx reason i db r e) [
      | inl same ↦ rw (e, same) (Keeps-refl db)
      | inr (x, here, status, products, orders, carts) ↦ rw e (
          Keeps-same refl (orders, carts)
            (Keeps-release db id x (set_status ctx.now failed) r.1.products here (λ y. refl)
              (ground arith) (ground arith) refl refl
              (rw (← items_of_find id db.orders i.order.items o x found here items) products)))
    ]
  ]

  same_shipment :
      (x : Order)
      → find id db.orders ≡ some x
      → was_shipped i.order.status ≡ was_shipped o.status
      → was_shipped i.order.status ≡ was_shipped x.status
  same_shipment x here e = e ∙ ap (λ (y : Order). was_shipped y.status) (same_row x here)

  -- The refund chooses what to release by the status that was read: it keeps the accounts where the order has the items that were read and has not been shipped in between.
  mark_refunded_write-Keeps :
      i.order.items ≡ o.items
      → was_shipped i.order.status ≡ was_shipped o.status
      → Keeps db (after (mark_refunded_write ctx i db) db)
  mark_refunded_write-Keeps items shipment = elim (Result-cases (mark_refunded_write ctx i db)) [
    | inr (why, e) ↦ rw e (Keeps-refl db)
    | inl (r, e) ↦ elim (mark_refunded_write-eq-ok ctx i db r e) [
      | inl same ↦ rw (e, same) (Keeps-refl db)
      | inr (x, here, status, products, orders, carts) ↦ rw e (
          Keeps-same refl (orders, carts)
            (release_refunded ctx id x r.1.products db here status (
              rw
                (
                  ← items_of_find id db.orders i.order.items o x found here items,
                  ← same_shipment x here shipment,
                )
                products)))
    ]
  ]

find_intent-order :
    (pi : ℕ) (db : Db) (i : Intent)
    → find_intent pi db ≡ ok (some i)
    → find i.payment.order_id db.orders ≡ some i.order
unfolding find_intent
find_intent-order pi db i e = elim (Option-cases (find_by_provider_id pi db.payments)) [
  | inl h ↦ absurd (ground arith)
  | inr (row, h) ↦ elim (Option-cases (find row.1.order_id db.orders)) [
    | inl g ↦ absurd (ground arith)
    | inr (o, g) ↦ ground arith
  ]
]

mark_paid_from-Keeps :
    (ctx : Ctx) (i : Intent) (db : Db)
    → find i.payment.order_id db.orders ≡ some i.order
    → Keeps db (after (mark_paid_from ctx (some i) db) db)
mark_paid_from-Keeps ctx i db h = elim (Bool-cases (status_eq i.order.status paid)) [
  | inl e ↦ rw e (Keeps-refl db)
  | inr e ↦ elim (Bool-cases (status_eq i.order.status pending)) [
    | inl f ↦ rw (e, f) (mark_paid_write-Keeps ctx i db i.order h)
    | inr f ↦ rw (e, f) (Keeps-refl db)
  ]
]

mark_failed_from-Keeps :
    (ctx : Ctx) (reason : Option Text) (i : Intent) (db : Db)
    → find i.payment.order_id db.orders ≡ some i.order
    → Keeps db (after (mark_failed_from ctx reason (some i) db) db)
mark_failed_from-Keeps ctx reason i db h = elim (Bool-cases (status_eq i.order.status pending)) [
  | inl f ↦ rw f (mark_failed_write-Keeps ctx i db i.order h reason refl)
  | inr f ↦ rw f (Keeps-refl db)
]

mark_refunded_from-Keeps :
    (ctx : Ctx) (i : Intent) (db : Db)
    → find i.payment.order_id db.orders ≡ some i.order
    → Keeps db (after (mark_refunded_from ctx (some i) db) db)
mark_refunded_from-Keeps ctx i db h =
    elim (Bool-cases (is_payment_status payment_succeeded i.payment)) [
      | inr e ↦ rw e (Keeps-refl db)
      | inl e ↦ elim (Bool-cases (stock_held i.order.status)) [
        | inl f ↦ rw (e, f) (mark_refunded_write-Keeps ctx i db i.order h refl refl)
        | inr f ↦ rw (e, f) (Keeps-refl db)
      ]
    ]

pub mark_paid-Keeps :
    (ctx : Ctx) (pi : ℕ) (db : Db) → Keeps db (after (mark_paid_by_payment_intent ctx pi db) db)
unfolding mark_paid_by_payment_intent
mark_paid-Keeps ctx pi db = elim (Result-cases (find_intent pi db)) [
  | inr (why, e) ↦ rw (e, mark_paid_by_payment_intent) (Keeps-refl db)
  | inl (none, e) ↦ rw (e, mark_paid_by_payment_intent) (Keeps-refl db)
  | inl (some i, e) ↦
      rw (e, mark_paid_by_payment_intent)
        (mark_paid_from-Keeps ctx i db (find_intent-order pi db i e))
]

pub mark_failed-Keeps :
    (ctx : Ctx) (pi : ℕ) (reason : Option Text) (db : Db)
    → Keeps db (after (mark_failed_by_payment_intent ctx pi reason db) db)
unfolding mark_failed_by_payment_intent
mark_failed-Keeps ctx pi reason db = elim (Result-cases (find_intent pi db)) [
  | inr (why, e) ↦ rw (e, mark_failed_by_payment_intent) (Keeps-refl db)
  | inl (none, e) ↦ rw (e, mark_failed_by_payment_intent) (Keeps-refl db)
  | inl (some i, e) ↦
      rw (e, mark_failed_by_payment_intent)
        (mark_failed_from-Keeps ctx reason i db (find_intent-order pi db i e))
]

pub mark_refunded-Keeps :
    (ctx : Ctx) (pi : ℕ) (db : Db) → Keeps db (after (mark_refunded_by_payment_intent ctx pi db) db)
unfolding mark_refunded_by_payment_intent
mark_refunded-Keeps ctx pi db = elim (Result-cases (find_intent pi db)) [
  | inr (why, e) ↦ rw (e, mark_refunded_by_payment_intent) (Keeps-refl db)
  | inl (none, e) ↦ rw (e, mark_refunded_by_payment_intent) (Keeps-refl db)
  | inl (some i, e) ↦
      rw (e, mark_refunded_by_payment_intent)
        (mark_refunded_from-Keeps ctx i db (find_intent-order pi db i e))
]
