-- ===== src/Orders/Cancel/Again.antt =====
-- A cancellation, and another of an order that has ended (apps/api/src/modules/orders/orders.service.ts).
use kartit.Prelude.{
  ℕ, ◌≡◌, refl, Bool, true, false, Option, none, some, [], arith, ◌==◌, not, ◌&&◌, Option-cases,
  Bool-cases, inl, inr,
}
use kartit.Prelude.Table.{find, find-modify_self}
use kartit.Result.{ok, err, Error, forbidden, Result-cases}
use kartit.Shared.Enums.{OrderStatus, cancelled}
use kartit.Store.{Db, Order, Payment}
use kartit.Orders.{
  Ctx, update_many, set_status, find_by_provider_id, find_last_where, is_valid_payment,
}
use kartit.Orders.Progress.{is_ended}
use kartit.Shared.Transitions.{includes}
use kartit.Orders.Cancel.{
  cancellable_statuses, cancel_refusal, cancel_write, cancel_check, cancel_tx, refund_after, settle,
  cancel,
}

cancel_write-cancelled :
    (ctx : Ctx) (user_id id : ℕ) (existing : Order) (payment : Option (ℕ × Payment)) (db : Db)
    (r : Order × Option ℕ) (db' : Db)
    → cancel_write ctx user_id id existing payment db ≡ ok (r, db')
    → (o : Order) × (find id db'.orders ≡ some o) × (o.status ≡ cancelled)
unfolding cancel_write update_many
cancel_write-cancelled ctx user_id id existing payment db r db' e =
    elim (Option-cases (find id db.orders)) [
      | inl h ↦ absurd (ground arith)
      | inr (o, h) ↦
          let moved = find-modify_self id (set_status ctx.now cancelled) db.orders o h in
          (set_status ctx.now cancelled o, ground (arith, moved), refl)
    ]

cancel_tx-cancelled :
    (ctx : Ctx) (user_id : ℕ) (is_admin : Bool) (id : ℕ) (db : Db) (r : Order × Option ℕ) (db' : Db)
    → cancel_tx ctx user_id is_admin id db ≡ ok (r, db')
    → (o : Order) × (find id db'.orders ≡ some o) × (o.status ≡ cancelled)
unfolding cancel_tx
cancel_tx-cancelled ctx user_id is_admin id db r db' e =
    elim (Result-cases (cancel_check user_id is_admin (find id db.orders))) [
      | inr (why, c) ↦ absurd (ground arith)
      | inl (x, c) ↦
          cancel_write-cancelled ctx user_id id x
            (find_last_where (is_valid_payment id) db.payments) db r db' (ground arith)
    ]

settle-orders :
    (r : Order × Option ℕ) (stripe_error : Option Error) (db : Db)
    → (settle r stripe_error db).db.orders ≡ db.orders
unfolding refund_after
settle-orders (o, none) stripe_error db = refl
settle-orders (o, some pi) (some why) db = refl
settle-orders (o, some pi) none db = elim (Option-cases (find_by_provider_id pi db.payments)) [
  | inl e ↦ rw (e, refund_after) refl
  | inr (row, e) ↦ rw (e, refund_after) refl
]

-- An order that has ended cannot be cancelled.
pub cancel_check-ended :
    (user_id : ℕ) (is_admin : Bool) (o : Order)
    → is_ended o.status ≡ true
    → (why : Error) × (cancel_check user_id is_admin (some o) ≡ err why)
unfolding cancel_check
cancel_check-ended user_id is_admin o h =
    elim (Bool-cases (not is_admin && not (o.user_id == user_id))) [
      | inl e ↦ (forbidden, rw e refl)
      | inr e ↦
          let closed : includes cancellable_statuses o.status ≡ false = ended o.status h in
          (cancel_refusal o.status, rw (e, closed) refl)
    ]
  where
    ended : (s : OrderStatus) → is_ended s ≡ true → includes cancellable_statuses s ≡ false
    ended s k = ground arith

-- A cancellation of such an order writes nothing, and asks for no refund.
pub cancel-ended :
    (ctx : Ctx) (user_id : ℕ) (is_admin : Bool) (id : ℕ) (stripe_error : Option Error) (db : Db)
    (o : Order)
    → find id db.orders ≡ some o
    → is_ended o.status ≡ true
    → let again = cancel ctx user_id is_admin id stripe_error db in
      (again.refunds ≡ []) × (again.db ≡ db) × ((why : Error) × (again.reply ≡ err why))
unfolding cancel cancel_tx
cancel-ended ctx user_id is_admin id stripe_error db o here ended =
    let (why, refusal) = cancel_check-ended user_id is_admin o ended in
    let stopped : cancel_tx ctx user_id is_admin id db ≡ err why =
      rw (cancel_tx, here, refusal) refl in
    (rw (stopped, cancel) refl, rw (stopped, cancel) refl, (why, rw (stopped, cancel) refl))

-- A cancellation that has committed leaves the order cancelled, also where Stripe refuses the refund.
pub cancel-cancelled :
    (ctx : Ctx) (user_id id : ℕ) (is_admin : Bool) (stripe_error : Option Error) (db db' : Db)
    (r : Order × Option ℕ)
    → cancel_tx ctx user_id is_admin id db ≡ ok (r, db')
    → (o : Order) × (find id (cancel ctx user_id is_admin id stripe_error db).db.orders ≡ some o)
      × (o.status ≡ cancelled)
unfolding cancel
cancel-cancelled ctx user_id id is_admin stripe_error db db' r e =
    let (o, here, status) = cancel_tx-cancelled ctx user_id is_admin id db r db' e in
    (o, rw (e, cancel, settle-orders r stripe_error db') here, status)
