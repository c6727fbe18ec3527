-- ===== src/Orders/Sweep.antt =====
-- apps/api/src/jobs/sweepAbandonedOrders.ts
pub mod Accounts
use kartit.Prelude.{
  ℕ, ◌+◌, ◌*◌, Bool, true, false, Option, none, some, List, [], ◌∷◌, ◌==◌, if◌then◌else◌, ◌&&◌, not,
  ltb,
}
use kartit.Prelude.Table.{Table, find, modify, find_where}
use kartit.Result.{Result, ok, err, record_not_found}
use kartit.Shared.Text.{Text, codes}
use kartit.Shared.Enums.{
  OrderStatus, pending, cancelled, payment_index, payment_failed, requires_payment,
}
use kartit.Shared.Transitions.{status_eq}
use kartit.Inventory.{restore_inventory}
use kartit.Store.{Db, Tx, ⊤, Order, Payment, pure, gets, lift, put, update_row, after, ◌>>=◌, ◌>>◌}
use kartit.Orders.{on_products, update_payment, is_some, set_status}

abbrev pub abandoned_threshold_minutes : ℕ
abandoned_threshold_minutes = 30

-- `status: PENDING, createdAt: { lt: threshold }`, the threshold being thirty minutes before now.
abbrev pub is_abandoned : ℕ → Order → Bool
is_abandoned now o =
    status_eq o.status pending && ltb (o.created_at + abandoned_threshold_minutes * 60 * 1000) now

-- `{ providerPaymentId: { not: null }, status: REQUIRES_PAYMENT }` among the order's payments.
abbrev pub is_open_payment : ℕ → Payment → Bool
is_open_payment id p =
    (p.order_id == id)
    && is_some p.provider_payment_id
    && (payment_index p.status == payment_index requires_payment)

-- `order.update({ where: { id } })`, which no status guards.
abbrev pub update_order : ℕ → (Order → Order) → Tx ⊤
update_order id f db = elim (update_row id f db.orders) [
  | ok t ↦ ok (tt, record db { orders = t })
  | err e ↦ err e
]

abbrev pub fail_payment : Option (ℕ × Payment) → Tx ⊤
fail_payment none = pure tt
fail_payment (some (k, _)) = update_payment k (λ p. record p {
  status = payment_failed;
  failure_reason = some (codes "Abandoned order — payment not received");
})

-- After the second look at the status. What Stripe does with the cancelled intent is ignored.
unfoldable pub sweep_write : ℕ → ℕ → Order → Option (ℕ × Payment) → Tx ⊤
sweep_write now id order payment = do
  update_order id (set_status now cancelled)
  on_products (λ t. restore_inventory t order.items false)
  fail_payment payment

-- The transaction for one of the orders that were found, with its open payment.
unfoldable pub sweep_order : ℕ → ℕ → Order → Option (ℕ × Payment) → Tx ⊤
sweep_order now id order payment db = elim (find id db.orders) [
  | none ↦ ok (tt, db)
  | some current ↦
      if status_eq current.status pending then sweep_write now id order payment db else ok (tt, db)
]

-- The orders that the first query returns, each with its open payment.
unfoldable pub find_abandoned :
    ℕ → Table Payment → Table Order → List (ℕ × Order × Option (ℕ × Payment))
find_abandoned now payments [] = []
find_abandoned now payments ((id, o) ∷ orders) =
    let rest = find_abandoned now payments orders in
    if is_abandoned now o then (id, o, find_where (is_open_payment id) payments) ∷ rest else rest

-- One round of the loop: a transaction that fails is logged, and not counted.
unfoldable pub sweep_loop : ℕ → List (ℕ × Order × Option (ℕ × Payment)) → ℕ → Db → ℕ × Db
sweep_loop now [] processed db = (processed, db)
sweep_loop now ((id, o, payment) ∷ rest) processed db =
    let result = sweep_order now id o payment db in
    sweep_loop now rest (elim result [ ok _ ↦ processed + 1 | err _ ↦ processed ]) (after result db)

unfoldable pub sweep_abandoned_orders : ℕ → Db → ℕ × Db
sweep_abandoned_orders now db = sweep_loop now (find_abandoned now db.payments db.orders) 0 db
