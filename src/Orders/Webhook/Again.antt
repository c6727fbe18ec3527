-- ===== src/Orders/Webhook/Again.antt =====
-- Stripe's success event, and what it leaves (apps/api/src/modules/orders/orders.payment.service.ts).
use kartit.Prelude.{
  ℕ, ◌≡◌, refl, true, false, Option, some, arith, Option-cases, Bool-cases, inl, inr,
}
use kartit.Prelude.Table.{find, modify, find-modify_self}
use kartit.Result.{ok}
use kartit.Shared.Enums.{pending, paid, payment_succeeded}
use kartit.Shared.Transitions.{status_eq}
use kartit.Store.{Db, Order, Payment, update_row}
use kartit.Orders.{Ctx, update_many, find_by_provider_id, set_payment_status}
use kartit.Orders.Webhook.{
  find_intent, mark_paid_flipped, mark_paid_write, mark_paid_from, mark_paid_by_payment_intent,
}

-- What a handled success leaves: nothing new, or the order paid and its payment succeeded.
mark_paid_from-eq-ok :
    (ctx : Ctx) (pi k : ℕ) (p : Payment) (o : Order) (db db' : Db) (r : Option Order)
    → find_by_provider_id pi db.payments ≡ some (k, p)
    → find p.order_id db.orders ≡ some o
    → status_eq o.status pending ≡ true
    → mark_paid_from ctx (some (record { payment_id = k; payment = p; order = o })) db ≡ ok (r, db')
    → (x : Order) × (find p.order_id db'.orders ≡ some x)
      × (x.status ≡ paid)
      × (db'.payments ≡ modify k (set_payment_status payment_succeeded) db.payments)
unfolding mark_paid_write mark_paid_flipped update_many update_row
mark_paid_from-eq-ok ctx pi k p o db db' r found here open_order e =
    let f : Order → Order =
      λ y. record y { status = paid; paid_at = some ctx.now; updated_at = ctx.now } in
    let moved = find-modify_self p.order_id f db.orders o here in
    (f o, ground (arith, moved), refl, ground arith)

-- A handled success event of a known intent leaves its order at another status than pending.
pub mark_paid-settled :
    (ctx : Ctx) (pi k : ℕ) (p : Payment) (db db' : Db) (r : Option Order)
    → find_by_provider_id pi db.payments ≡ some (k, p)
    → mark_paid_by_payment_intent ctx pi db ≡ ok (r, db')
    → (o : Order) × (find p.order_id db'.orders ≡ some o) × (status_eq o.status pending ≡ false)
unfolding mark_paid_by_payment_intent find_intent
mark_paid-settled ctx pi k p db db' r f e = elim (Option-cases (find p.order_id db.orders)) [
  | inl g ↦ absurd (ground arith)
  | inr (o, g) ↦ elim (Bool-cases (status_eq o.status pending)) [
    | inr closed ↦ let same : db' ≡ db = ground arith in (o, rw same g, closed)
    | inl open_order ↦
        let (x, here, status, payments) =
          mark_paid_from-eq-ok ctx pi k p o db db' r f g open_order (ground arith) in
        (x, here, rw status refl)
  ]
]

-- Handling it writes nothing where the intent's order is not pending.
pub mark_paid-closed :
    (ctx : Ctx) (pi k : ℕ) (p : Payment) (o : Order) (db : Db)
    → find_by_provider_id pi db.payments ≡ some (k, p)
    → find p.order_id db.orders ≡ some o
    → status_eq o.status pending ≡ false
    → mark_paid_by_payment_intent ctx pi db ≡ ok (some o, db)
unfolding mark_paid_by_payment_intent find_intent
mark_paid-closed ctx pi k p o db f g closed = ground arith
