-- ===== src/Orders/Cancel/Stale.antt =====
-- A cancellation that overlaps the payment (apps/api/src/modules/orders/orders.service.ts).
use kartit.Prelude.{ℕ, ◌≡◌, refl, false, Option, none, some, arith}
use kartit.Prelude.Table.{Table, find, modify, find-modify_self}
use kartit.Result.{ok}
use kartit.Shared.Enums.{OrderStatus, pending, paid, cancelled}
use kartit.Inventory.{restore_inventory}
use kartit.Store.{Db, Order, Payment, Product, order_cancelled, outbox_create}
use kartit.Orders.{Ctx, update_many, set_status}
use kartit.Orders.Cancel.{cancel_write, refund_payment_id}

no_refund :
    (s : OrderStatus) (payment : Option (ℕ × Payment))
    → s ≡ pending
    → refund_payment_id s payment ≡ none
no_refund s none h = refl
no_refund s (some (k, p)) h = ground arith

-- A cancellation that has read the order as pending, and goes on after Stripe's success event has made it paid, still goes through where its stock can be released: the order ends up cancelled, its payment stays as it was, and no refund is asked for.
pub cancel_write-stale_pending :
    (ctx : Ctx) (user_id id : ℕ) (existing o : Order) (payment : Option (ℕ × Payment)) (db : Db)
    (t : Table Product)
    → existing.status ≡ pending
    → find id db.orders ≡ some o
    → o.status ≡ paid
    → restore_inventory db.products existing.items false ≡ ok t
    → (r : Order) × (db' : Db) × (cancel_write ctx user_id id existing payment db
        ≡ ok ((r, none), db'))
      × (r.status ≡ cancelled)
      × (find id db'.orders ≡ some r)
      × (db'.payments ≡ db.payments)
unfolding cancel_write update_many
cancel_write-stale_pending ctx user_id id existing o payment db t stale found status restored =
    let f = set_status ctx.now cancelled in
    let moved = find-modify_self id f db.orders o found in
    (
      f o,
      outbox_create ctx.outbox_id id (order_cancelled false user_id)
          (record db { products = t; orders = modify id f db.orders }),
      ground (arith, moved, no_refund existing.status payment stale),
      refl,
      moved,
      refl,
    )
