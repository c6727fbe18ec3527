-- ===== src/Orders/Cancel.antt =====
-- `ordersService.cancel` (apps/api/src/modules/orders/orders.service.ts).
pub mod Accounts
pub mod Again
pub mod Stale
use kartit.Prelude.{
  ℕ, Bool, true, false, Option, none, some, List, [], ◌∷◌, ◌==◌, if◌then◌else◌, ◌&&◌, not,
}
use kartit.Prelude.Table.{Table, find, modify}
use kartit.Result.{
  Result, ok, err, Error, record_not_found, not_found, not_found_code, forbidden, conflict,
  shipped_cannot_cancel, order_invalid_state, throw_if, or_throw,
}
use kartit.Shared.Enums.{
  OrderStatus, pending, paid, processing, shipped, cancelled, payment_refunded,
}
use kartit.Shared.Transitions.{status_eq, includes}
use kartit.Inventory.{restore_inventory}
use kartit.Store.{
  Db, Tx, Order, Payment, order_cancelled, pure, gets, lift, put, outbox_create, ◌>>=◌, ◌>>◌,
}
use kartit.Orders.{
  Ctx, update_many, on_products, set_payment_status, is_valid_payment, find_last_where,
  find_by_provider_id, set_status, update_payment,
}

abbrev pub cancellable_statuses : List OrderStatus
cancellable_statuses = pending ∷ paid ∷ processing ∷ []

-- Which conflict a status that cannot be cancelled gives.
abbrev pub cancel_refusal : OrderStatus → Error
cancel_refusal s =
    if status_eq s shipped then conflict shipped_cannot_cancel else conflict order_invalid_state

-- The provider id to refund once the transaction has committed.
abbrev pub refund_payment_id : OrderStatus → Option (ℕ × Payment) → Option ℕ
refund_payment_id s none = none
refund_payment_id s (some (_, payment)) =
    if status_eq s pending then none else payment.provider_payment_id

-- From the conditional update on, with the order and the payment that were read.
unfoldable pub cancel_write : Ctx → ℕ → ℕ → Order → Option (ℕ × Payment) → Tx (Order × Option ℕ)
cancel_write ctx user_id id existing payment = do
  count ← update_many id (includes cancellable_statuses) (set_status ctx.now cancelled)
  lift (throw_if (not (count == 1)) (conflict order_invalid_state))
  on_products (λ t. restore_inventory t existing.items false)
  put (
      outbox_create ctx.outbox_id id
        (order_cancelled (not (status_eq existing.status pending)) user_id))
  updated ← gets (λ db. find id db.orders)
  order ← lift (or_throw updated record_not_found)
  pure (order, refund_payment_id existing.status payment)

-- The checks on the row that was read.
unfoldable pub cancel_check : ℕ → Bool → Option Order → Result Order
cancel_check user_id is_admin none = err (not_found not_found_code)
cancel_check user_id is_admin (some existing) =
    if not is_admin && not (existing.user_id == user_id)
    then err forbidden
    else if includes cancellable_statuses existing.status
    then ok existing
    else err (cancel_refusal existing.status)

unfoldable pub cancel_tx : Ctx → ℕ → Bool → ℕ → Tx (Order × Option ℕ)
cancel_tx ctx user_id is_admin id = do
  found ← gets (λ db. find id db.orders)
  payment ← gets (λ db. find_last_where (is_valid_payment id) db.payments)
  existing ← lift (cancel_check user_id is_admin found)
  cancel_write ctx user_id id existing payment

-- What the call leaves: its reply, the database, and the payment intents that Stripe was asked to
-- refund.
pub record Outcome : Type 0 where
  pub reply : Result Order
  pub db : Db
  pub refunds : List ℕ

-- After the commit: the refund, then the payment's status. `stripe_error` is what `refunds.create`
-- throws, if it does.
unfoldable pub refund_after : Order → ℕ → Option Error → Db → Outcome
refund_after order pi (some e) db = record { reply = err e; db = db; refunds = pi ∷ [] }
refund_after order pi none db = elim (find_by_provider_id pi db.payments) [
  | none ↦ record { reply = err record_not_found; db = db; refunds = pi ∷ [] }
  | some (k, _) ↦ record {
    reply = ok order;
    db = record db { payments = modify k (set_payment_status payment_refunded) db.payments };
    refunds = pi ∷ [];
  }
]

abbrev pub settle : (Order × Option ℕ) → Option Error → Db → Outcome
settle (order, none) stripe_error db = record { reply = ok order; db = db; refunds = [] }
settle (order, some pi) stripe_error db = refund_after order pi stripe_error db

unfoldable pub cancel : Ctx → ℕ → Bool → ℕ → Option Error → Db → Outcome
cancel ctx user_id is_admin id stripe_error db = elim (cancel_tx ctx user_id is_admin id db) [
  | err e ↦ record { reply = err e; db = db; refunds = [] }
  | ok (result, db') ↦ settle result stripe_error db'
]
