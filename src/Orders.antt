-- ===== src/Orders.antt =====
-- apps/api/src/modules/orders: what the order services share. A service's transaction is cut in two
-- where it has read the order that it is about to change: `…_write` is the rest, with the row that was
-- read as an argument, so that a write that another transaction commits in between can be put there.
pub mod Create
pub mod Cancel
pub mod Status
pub mod Webhook
pub mod Sweep
pub mod Progress
pub mod Accounting
pub mod Tests
use kartit.Prelude.{
  ℕ, Bool, true, false, Option, none, some, List, [], ◌∷◌, ◌==◌, if◌then◌else◌, ◌&&◌, not,
}
use kartit.Prelude.Table.{Table, find, modify, find_where}
use kartit.Result.{Result, ok, err}
use kartit.Shared.Enums.{
  OrderStatus, PaymentStatus, payment_index, payment_succeeded, shipped, delivered, status_index,
}
use kartit.Store.{Db, Tx, ⊤, Order, Payment, Product, EventPayload, update_row}

-- What a request brings with it: the clock, and the id that the database client makes for a row of the
-- outbox.
pub record Ctx : Type 0 where
  pub now : ℕ
  pub outbox_id : ℕ

-- `order.updateMany({ where: { id, status: … }, data })`: the number of rows written.
unfoldable pub update_many : ℕ → (OrderStatus → Bool) → (Order → Order) → Tx ℕ
update_many id allowed f db = elim (find id db.orders) [
  | none ↦ ok (0, db)
  | some o ↦
      if allowed o.status then ok (1, record db { orders = modify id f db.orders }) else ok (0, db)
]

-- A loop over the products inside the transaction.
abbrev pub on_products : (Table Product → Result (Table Product)) → Tx ⊤
on_products f db = elim (f db.products) [
  | ok t ↦ ok (tt, record db { products = t })
  | err e ↦ err e
]

-- `payment.update({ where: { id }, data })`
abbrev pub update_payment : ℕ → (Payment → Payment) → Tx ⊤
update_payment id f db = elim (update_row id f db.payments) [
  | ok t ↦ ok (tt, record db { payments = t })
  | err e ↦ err e
]

abbrev pub set_payment_status : PaymentStatus → Payment → Payment
set_payment_status s p = record p { status = s }

abbrev pub is_some {ℓ} : {A : Type ℓ} → Option A → Bool
is_some none = false
is_some (some _) = true

-- `{ status: SUCCEEDED, providerPaymentId: { not: null } }` among the payments of an order.
abbrev pub is_valid_payment : ℕ → Payment → Bool
is_valid_payment id p =
    (p.order_id == id)
    && (payment_index p.status == payment_index payment_succeeded)
    && is_some p.provider_payment_id

-- The last row that satisfies the test: `orderBy: { createdAt: "desc" }, take: 1`.
unfoldable pub find_last_where : (Payment → Bool) → Table Payment → Option (ℕ × Payment)
find_last_where test [] = none
find_last_where test ((k, p) ∷ t) = elim (find_last_where test t) [
  | some row ↦ some row
  | none ↦ if test p then some (k, p) else none
]

abbrev pub has_provider_id : ℕ → Payment → Bool
has_provider_id pi p = elim p.provider_payment_id [ none ↦ false | some k ↦ k == pi ]

-- `payment.findUnique({ where: { providerPaymentId } })`
abbrev pub find_by_provider_id : ℕ → Table Payment → Option (ℕ × Payment)
find_by_provider_id pi = find_where (has_provider_id pi)

-- `status === SHIPPED || status === DELIVERED`
abbrev pub was_shipped : OrderStatus → Bool
was_shipped shipped = true
was_shipped delivered = true
was_shipped _ = false

abbrev pub set_status : ℕ → OrderStatus → Order → Order
set_status now s o = record o { status = s; updated_at = now }

-- The payload of the paid, failed and refunded events.
abbrev pub event_payload : Order → Payment → EventPayload
event_payload order payment = record {
  order_number = order.order_number;
  total_minor = order.total_minor;
  currency = order.currency;
  user_id = order.user_id;
  provider_payment_id = payment.provider_payment_id;
}
