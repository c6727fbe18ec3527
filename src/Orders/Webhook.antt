-- ===== src/Orders/Webhook.antt =====
-- `ordersPaymentService` (apps/api/src/modules/orders/orders.payment.service.ts): the admin's refund and
-- the three handlers of Stripe's events.
pub mod Accounts
pub mod Again
use kartit.Prelude.{
  ℕ, Bool, true, false, Option, none, some, List, [], ◌∷◌, ◌==◌, if◌then◌else◌, ◌&&◌, not,
}
use kartit.Prelude.Table.{Table, find, modify}
use kartit.Result.{
  Result, ok, err, Error, record_not_found, not_found, not_found_code, conflict, bad_request,
  no_payment, invalid_status, already_refunded, throw_if, or_throw,
}
use kartit.Shared.Text.{Text, codes}
use kartit.Shared.Enums.{
  OrderStatus, PaymentStatus, pending, paid, failed, refunded, delivered, payment_index,
  payment_succeeded, payment_failed, payment_refunded, stock_held,
}
use kartit.Shared.Transitions.{status_eq}
use kartit.Inventory.{restore_inventory}
use kartit.Store.{
  Db, Tx, Order, Payment, order_paid, order_refunded, order_payment_failed, pure, gets, lift, put,
  outbox_create, ◌>>=◌, ◌>>◌,
}
use kartit.Orders.{
  Ctx, update_many, on_products, update_payment, set_payment_status, is_valid_payment,
  find_last_where, find_by_provider_id, was_shipped, set_status, event_payload,
}

-- The payment of an intent, with its order.
pub record Intent : Type 0 where
  pub payment_id : ℕ
  pub payment : Payment
  pub order : Order

-- `payment.findUnique({ where: { providerPaymentId }, include: { order } })`
unfoldable pub find_intent : ℕ → Db → Result (Option Intent)
find_intent pi db = elim (find_by_provider_id pi db.payments) [
  | none ↦ ok none
  | some (k, p) ↦ elim (find p.order_id db.orders) [
    | none ↦ err record_not_found
    | some o ↦ ok (some (record { payment_id = k; payment = p; order = o }))
  ]
]

abbrev pub reread : ℕ → Tx (Option Order)
reread id db = elim (find id db.orders) [ none ↦ err record_not_found | some o ↦ ok (some o, db) ]

-- Once the order has been flipped.
unfoldable pub mark_paid_flipped : Ctx → Intent → Tx (Option Order)
mark_paid_flipped ctx i = do
  update_payment i.payment_id (set_payment_status payment_succeeded)
  put (
      outbox_create ctx.outbox_id i.payment.order_id (order_paid (event_payload i.order i.payment)))
  reread i.payment.order_id

unfoldable pub mark_paid_write : Ctx → Intent → Tx (Option Order)
mark_paid_write ctx i = do
  count ←
      update_many i.payment.order_id (status_eq pending)
        (λ o. record o { status = paid; paid_at = some ctx.now; updated_at = ctx.now })
  if count == 1 then mark_paid_flipped ctx i else pure (some i.order)

abbrev pub mark_paid_from : Ctx → Option Intent → Tx (Option Order)
mark_paid_from ctx none = pure none
mark_paid_from ctx (some i) =
    if status_eq i.order.status paid
    then pure (some i.order)
    else if not (status_eq i.order.status pending)
    then pure (some i.order)
    else mark_paid_write ctx i

unfoldable pub mark_paid_by_payment_intent : Ctx → ℕ → Tx (Option Order)
mark_paid_by_payment_intent ctx pi db = elim (find_intent pi db) [
  | err e ↦ err e
  | ok found ↦ mark_paid_from ctx found db
]

abbrev pub default_reason : Option Text → Text
default_reason none = codes "Payment failed"
default_reason (some reason) = reason

unfoldable pub mark_failed_flipped : Ctx → Option Text → Intent → Tx (Option Order)
mark_failed_flipped ctx reason i = do
  update_payment i.payment_id (λ p. record p { status = payment_failed; failure_reason = reason })
  on_products (λ t. restore_inventory t i.order.items false)
  put (
      outbox_create ctx.outbox_id i.payment.order_id
        (order_payment_failed (default_reason reason) (event_payload i.order i.payment)))
  reread i.payment.order_id

unfoldable pub mark_failed_write : Ctx → Option Text → Intent → Tx (Option Order)
mark_failed_write ctx reason i = do
  count ← update_many i.payment.order_id (status_eq pending) (set_status ctx.now failed)
  if count == 1 then mark_failed_flipped ctx reason i else pure (some i.order)

abbrev pub mark_failed_from : Ctx → Option Text → Option Intent → Tx (Option Order)
mark_failed_from ctx reason none = pure none
mark_failed_from ctx reason (some i) =
    if not (status_eq i.order.status pending)
    then pure (some i.order)
    else mark_failed_write ctx reason i

unfoldable pub mark_failed_by_payment_intent : Ctx → ℕ → Option Text → Tx (Option Order)
mark_failed_by_payment_intent ctx pi reason db = elim (find_intent pi db) [
  | err e ↦ err e
  | ok found ↦ mark_failed_from ctx reason found db
]

unfoldable pub mark_refunded_flipped : Ctx → Intent → Tx (Option Order)
mark_refunded_flipped ctx i = do
  update_payment i.payment_id (set_payment_status payment_refunded)
  on_products (λ t. restore_inventory t i.order.items (was_shipped i.order.status))
  put (
      outbox_create ctx.outbox_id i.payment.order_id
        (order_refunded (event_payload i.order i.payment)))
  reread i.payment.order_id

unfoldable pub mark_refunded_write : Ctx → Intent → Tx (Option Order)
mark_refunded_write ctx i = do
  count ← update_many i.payment.order_id stock_held (set_status ctx.now refunded)
  if count == 1 then mark_refunded_flipped ctx i else pure (some i.order)

abbrev pub is_payment_status : PaymentStatus → Payment → Bool
is_payment_status s p = payment_index p.status == payment_index s

abbrev pub mark_refunded_from : Ctx → Option Intent → Tx (Option Order)
mark_refunded_from ctx none = pure none
mark_refunded_from ctx (some i) =
    if not (is_payment_status payment_succeeded i.payment)
    then pure (some i.order)
    else if not (stock_held i.order.status)
    then pure (some i.order)
    else mark_refunded_write ctx i

unfoldable pub mark_refunded_by_payment_intent : Ctx → ℕ → Tx (Option Order)
mark_refunded_by_payment_intent ctx pi db = elim (find_intent pi db) [
  | err e ↦ err e
  | ok found ↦ mark_refunded_from ctx found db
]

abbrev pub refund_payment : Option (ℕ × Payment) → Result (ℕ × Payment)
refund_payment none = err (bad_request no_payment)
refund_payment (some (_, p)) = elim p.provider_payment_id [
  | none ↦ err (bad_request no_payment)
  | some pi ↦ ok (pi, p)
]

-- The payment intent that `refundOrder` asks Stripe to refund.
unfoldable pub refund_order : ℕ → Db → Result ℕ
refund_order id db = elim (find id db.orders) [
  | none ↦ err (not_found not_found_code)
  | some order ↦ elim (refund_payment (find_last_where (is_valid_payment id) db.payments)) [
    | err e ↦ err e
    | ok (pi, payment) ↦
        if not (status_eq order.status delivered)
        then err (bad_request invalid_status)
        else if is_payment_status payment_refunded payment
        then err (conflict already_refunded)
        else ok pi
  ]
]
